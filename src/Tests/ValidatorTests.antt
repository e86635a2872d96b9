-- ===== src/Tests/ValidatorTests.antt =====
-- The domains that a list allows, at concrete inputs.
use service_platform.Prelude.{
  String, ◌≡◌, ◌≢◌, ◌⊎◌, ◌↔◌, refl, true, false, none, some, List, [], ◌∷◌, Option,
}
use service_platform.Prelude.Strings.{trim_space}
use service_platform.Validator.Domains.{is_domain_allowed}
use service_platform.Validator.Domains.Permits.{Some, LetsIn, is_domain_allowed_iff}

-- Texts that are in small letters already, and no URLs.
abbrev small : String → String
small s = s

abbrev no_host : String → Option String
no_host s = none

abbrev domains : List String
domains = "*.example.org" ∷ "intern" ∷ []

abbrev asked : String
asked = "www.example.org"

is_domain_allowed_iff_example :
    (is_domain_allowed small no_host asked domains ≡ true)
    ↔ ((asked ≢ "") × Some (LetsIn small no_host (small (trim_space asked))) domains)
is_domain_allowed_iff_example = is_domain_allowed_iff small no_host asked domains

allowed : is_domain_allowed small no_host asked domains ≡ true
unfolding is_domain_allowed service_platform.Prelude.Strings.trim_left
    service_platform.Prelude.Strings.trim_right service_platform.Prelude.Strings.is_space
allowed = refl

not_allowed : is_domain_allowed small no_host "www-example.org" domains ≡ false
unfolding is_domain_allowed service_platform.Prelude.Strings.trim_left
    service_platform.Prelude.Strings.trim_right service_platform.Prelude.Strings.is_space
not_allowed = refl
