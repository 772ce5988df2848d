-- ===== src/Domains.antt =====
-- The sets of known domains: server/src/envelock/util/domains.py. The registrable domain comes from
-- the public suffix list of the tldextract package, so that lookup is a parameter.
use envelock.Prelude.{String, Bool, List, [], ◌∷◌, elem}

-- `_FREE_MAIL`
unfoldable pub free_mail : List String
free_mail =
    "gmail.com" ∷ "googlemail.com" ∷ "yahoo.com" ∷ "yahoo.co.uk" ∷ "outlook.com" ∷ "hotmail.com"
    ∷ "live.com" ∷ "msn.com" ∷ "aol.com" ∷ "icloud.com" ∷ "me.com" ∷ "proton.me" ∷ "protonmail.com"
    ∷ "gmx.com" ∷ "mail.com" ∷ "zoho.com" ∷ "qq.com" ∷ "163.com" ∷ "126.com" ∷ "sina.com"
    ∷ "foxmail.com" ∷ "naver.com" ∷ "yandex.com" ∷ "rediffmail.com" ∷ []

-- `_PLATFORM_DOMAINS`
unfoldable pub platform_domains : List String
platform_domains = "envelock.org" ∷ "google.com" ∷ "microsoft.com" ∷ "apple.com" ∷ "amazon.com" ∷ []

-- `is_free_mail`
unfoldable pub is_free_mail : (String → String) → String → Bool
is_free_mail registrable domain = elem (registrable domain) free_mail

-- `is_platform_domain`
unfoldable pub is_platform_domain : (String → String) → String → Bool
is_platform_domain registrable domain = elem (registrable domain) platform_domains
