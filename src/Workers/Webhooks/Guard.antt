-- ===== src/Workers/Webhooks/Guard.antt =====
-- The guard of the webhooks against requests to the program's own network.
use envelock.Prelude.{
  ◌≡◌, String, false, Option, none, some, List, [], ◌∷◌, arith, eq_iff, str_eq, Bool-cases,
  Option-cases, inl, inr, All,
}
use envelock.Workers.Webhooks.{
  World, allowed, assert_safe_url, scan, scan_answer, conclude, choose, is_forbidden, Address,
  before_zone, host_of,
}

-- Each answer of the resolver that is an address is one that may be dialled.
abbrev pub AllPublic : (String → Option Address) → List String → Type 0
AllPublic ip_address infos =
    All (λ info. (ip : Address) → ip_address (before_zone info) ≡ some ip → is_forbidden ip ≡ false)
      infos

module _ (ip_address : String → Option Address) where
  -- The first of the answers that is an address.
  abbrev pub first_address : List String → Option String
  first_address [] = none
  first_address (info ∷ infos) = elim (ip_address (before_zone info)) [
    | none ↦ first_address infos
    | some ip ↦ some ip.text
  ]

  abbrev or_else : Option String → Option String → Option String
  or_else none later = later
  or_else (some text) later = some text

  scan-AllPublic :
      (chosen : Option String) (infos : List String) (dial : Option String)
      → scan ip_address chosen infos ≡ allowed dial
      → AllPublic ip_address infos
  unfolding scan
  scan-AllPublic chosen [] dial h = tt
  scan-AllPublic chosen (info ∷ infos) dial h =
      elim (Option-cases (ip_address (before_zone info))) [
        | inl e ↦ ((λ ip f. absurd (cc)), scan-AllPublic chosen infos dial (ground (arith, h, e)))
        | inr (ip, e) ↦ elim (Bool-cases (is_forbidden ip)) [
          | inl bad ↦ ground (arith, h, e, bad)
          | inr good ↦ (
            (λ other f. grind (arith, e, f, good)),
            scan-AllPublic (choose chosen ip.text) infos dial (ground (arith, h, e, good)),
          )
        ]
      ]

  later :
      (chosen : Option String) (own : String) (infos : List String) (text : String)
      → or_else (choose chosen own) (first_address infos) ≡ some text
      → or_else chosen (some own) ≡ some text
  unfolding choose
  later none own infos text h = h
  later (some t) own infos text h = h

  scan-first_address :
      (chosen : Option String) (infos : List String) (text : String)
      → scan ip_address chosen infos ≡ allowed (some text)
      → or_else chosen (first_address infos) ≡ some text
  unfolding scan conclude choose
  scan-first_address none [] text h = absurd (cc)
  scan-first_address (some t) [] text h = ground (arith, h)
  scan-first_address chosen (info ∷ infos) text h =
      elim (Option-cases (ip_address (before_zone info))) [
        | inl e ↦
            rw (e, first_address) (scan-first_address chosen infos text (ground (arith, h, e)))
        | inr (ip, e) ↦ elim (Bool-cases (is_forbidden ip)) [
          | inl bad ↦ ground (arith, h, e, bad)
          | inr good ↦
              rw (e, first_address)
                (later chosen ip.text infos text (
                  scan-first_address (choose chosen ip.text) infos text
                    (ground (arith, h, e, good))))
        ]
      ]

guard-scan_answer :
    (w : World) (url dial : String)
    → assert_safe_url w url ≡ allowed (some dial)
    → scan_answer w.ip_address (w.resolve (host_of (w.urlparse url).hostname)) ≡ allowed (some dial)
unfolding assert_safe_url
guard-scan_answer w url dial h = ground (arith, h)

-- Where the guard lets a request through to an address, the name resolved, each of the addresses that
-- it resolved to may be dialled, and the request goes to the first of them.
pub guard_dials_public :
    (w : World) (url dial : String)
    → assert_safe_url w url ≡ allowed (some dial)
    → (infos : List String) × (w.resolve (host_of (w.urlparse url).hostname) ≡ some infos)
      × AllPublic w.ip_address infos
      × (first_address w.ip_address infos ≡ some dial)
unfolding scan_answer
guard_dials_public w url dial h =
    let scanned = guard-scan_answer w url dial h in
    elim (Option-cases (w.resolve (host_of (w.urlparse url).hostname))) [
      | inl r ↦ ground (arith, scanned, r)
      | inr (infos, r) ↦
          let scan_allowed : scan w.ip_address none infos ≡ allowed (some dial) =
            ground (arith, scanned, r) in
          (
            infos,
            r,
            scan-AllPublic w.ip_address none infos (some dial) scan_allowed,
            scan-first_address w.ip_address none infos dial scan_allowed,
          )
    ]

-- Outside development the guard lets through only https URLs.
pub guard_needs_https :
    (w : World) (url : String) (dial : Option String)
    → assert_safe_url w url ≡ allowed dial
    → w.settings.development ≡ false
    → (w.urlparse url).scheme ≡ "https"
unfolding assert_safe_url
guard_needs_https w url dial h production =
    elim (Bool-cases (str_eq (w.urlparse url).scheme "https")) [
      | inl s ↦ (eq_iff (w.urlparse url).scheme "https").0 s
      | inr s ↦ ground (arith, h, production, s)
    ]
