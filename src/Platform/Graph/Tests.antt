-- ===== src/Platform/Graph/Tests.antt =====
-- The properties of the shared graph and of the fraud accounts at concrete inputs.
use envelock.Prelude.{
  ◌≤◌, ◌≡◌, refl, String, true, false, none, some, List, [], ◌∷◌, any, elem, length, distinct,
  if◌then◌else◌,
}
use envelock.Prelude.Dict.{lookup}
use envelock.Platform.Graph.{empty, Report, fraudulent, legitimate, actionable, members, key_of}
use envelock.Platform.Graph.History.{
  replay, is_about, tenants_of, accused, summary, map_option, entry_of_history, dissent_confirms,
}
use envelock.Platform.Graph.Store.{hydrate}
use envelock.Platform.Graph.Restart.{serve, serve_all, facts, techniques_of, restart_recalls}
use envelock.Platform.Graph.Instances.{counted, other_process_forgotten}
use envelock.Platform.Graph.Accounts.{Hashing, Identifier, is_blank, report, lookup_accounts}
use envelock.Platform.Graph.Sharing.{others_of, fraud_shared}

-- A list of public suffixes in which every name is registrable.
abbrev flat : String → String
flat domain = domain

abbrev accusation : Report
accusation = record {
  domain = "acme-billing.example";
  verdict = fraudulent;
  tenant_id = "t1";
  technique = some "combosquat";
  now = 10;
}

abbrev dissent : Report
dissent = record accusation { verdict = legitimate; tenant_id = "t2"; now = 20 }

entry_of_history_example :
    summary (lookup "acme-billing.example" (replay flat (dissent ∷ accusation ∷ [])).entries) ≡ (
      if any (is_about flat "acme-billing.example") (dissent ∷ accusation ∷ [])
      then some (
        length (tenants_of flat "acme-billing.example" (dissent ∷ accusation ∷ [])),
        accused flat "acme-billing.example" (dissent ∷ accusation ∷ []),
      )
      else none)
entry_of_history_example = entry_of_history flat "acme-billing.example" (dissent ∷ accusation ∷ [])

dissent_confirms_example :
    (map_option actionable (lookup "acme-billing.example" (replay flat (accusation ∷ [])).entries)
      ≡ some false)
    × (map_option actionable
          (lookup "acme-billing.example" (replay flat (dissent ∷ accusation ∷ [])).entries)
        ≡ some true)
unfolding is_about key_of
dissent_confirms_example =
    dissent_confirms flat "acme-billing.example" accusation dissent refl refl refl refl
      (distinct "t1" "t2" refl)

abbrev served : List Report
served = dissent ∷ accusation ∷ []

restart_recalls_example :
    (map_option facts (lookup "acme-billing.example" (hydrate (serve_all flat served).1).1.entries)
      ≡ map_option facts (lookup "acme-billing.example" (serve_all flat served).0.entries))
    × (elem "t1" (
          techniques_of
            (lookup "acme-billing.example" (hydrate (serve_all flat served).1).1.entries))
        ≡ elem "t1"
            (techniques_of (lookup "acme-billing.example" (serve_all flat served).0.entries)))
    × (elem "t1"
          (members (lookup "acme-billing.example" (hydrate (serve_all flat served).1).1.reporters))
        ≡ elem "t1" (members (lookup "acme-billing.example" (serve_all flat served).0.reporters)))
restart_recalls_example = restart_recalls flat "acme-billing.example" "t1" served

other_process_forgotten_example :
    map_option counted (
      lookup "acme-billing.example"
        (serve flat dissent (empty, (serve_all flat (accusation ∷ [])).1)).1)
    ≡ some (1, "t2" ∷ [])
unfolding is_about key_of lookup
other_process_forgotten_example =
    other_process_forgotten flat "acme-billing.example" dissent empty
      (serve_all flat (accusation ∷ [])).1 refl refl refl

abbrev hashing : Hashing
hashing = record {
  without_spaces = λ s. s;
  upper = λ s. s;
  lower = λ s. s;
  digest = λ scheme identifier. identifier;
}

abbrev mule : Identifier
mule = record { scheme = some "iban"; identifier = some "GB33BUKB20201555555555" }

fraud_shared_example :
    1
    ≤ others_of (
        lookup "GB33BUKB20201555555555" (
          lookup_accounts hashing "t2"
            (("iban", "GB33BUKB20201555555555") ∷ [])
            (report hashing 10 "t1" (mule ∷ []) []).1))
unfolding is_blank
fraud_shared_example =
    fraud_shared hashing 10 "t1" "t2" mule [] [] tt refl (distinct "t1" "t2" refl)
