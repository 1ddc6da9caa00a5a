-- ===== src/Alarm/Health/Streaks.antt =====
-- The failure streaks of alarm/registry.rs against the history of the attempts.
use crypto_collector.Prelude.{
  ℕ, ◌+◌, String, true, Option, some, none, List, [], ◌∷◌, ◌≡◌, refl, arith, str_eq, str_eq_iff, ap,
  if◌then◌else◌,
}
use crypto_collector.Table.{find, find-upsert, string_key}
use crypto_collector.Alarm.Health.{
  HealthRegistry, ProviderHealth, never_observed, new_registry, record_provider_success,
  record_provider_network_failure, provider_snapshot,
}

-- What the workers report of a provider.
pub data Report : Type 0 where
  succeeded : String → ℕ → Report
  unreachable : String → Report

unfoldable pub report : Report → HealthRegistry → HealthRegistry
report (succeeded provider now) r = record_provider_success now provider r
report (unreachable provider) r = record_provider_network_failure provider r

-- The registry after a history, the latest report first.
abbrev pub after_reports : List Report → HealthRegistry
after_reports [] = new_registry
after_reports (e ∷ es) = report e (after_reports es)

-- The failures of a provider since its last success.
abbrev pub streak : String → List Report → ℕ
streak provider [] = 0
streak provider (succeeded q now ∷ es) = if str_eq q provider then 0 else streak provider es
streak provider (unreachable q ∷ es) =
    let rest = streak provider es in if str_eq q provider then rest + 1 else rest

abbrev pub last_success : String → List Report → Option ℕ
last_success provider [] = none
last_success provider (succeeded q now ∷ es) =
    if str_eq q provider then some now else last_success provider es
last_success provider (unreachable q ∷ es) = last_success provider es

find-nothing : (provider : String) → find provider new_registry.providers ≡ none
unfolding find
find-nothing provider = refl

find-same :
    (q provider : String) (t : List (String × ProviderHealth))
    → str_eq q provider ≡ true
    → find q t ≡ find provider t
find-same q provider t h = ap (λ s. find s t) ((str_eq_iff q provider).0 h)

-- Whatever the workers report and in whichever order, the snapshot of a provider holds the number of
-- its network failures since its last success, and the instant of that success.
pub provider_snapshot-after_reports :
    (provider : String) (es : List Report)
    → ((provider_snapshot provider (after_reports es)).consecutive_network_failures
        ≡ streak provider es)
      × ((provider_snapshot provider (after_reports es)).last_success_at ≡ last_success provider es)
unfolding provider_snapshot report record_provider_success record_provider_network_failure
provider_snapshot-after_reports provider [] = ground (arith, find-nothing provider)
provider_snapshot-after_reports provider (succeeded q now ∷ es) =
    let before = (after_reports es).providers in
    let stored =
      find-upsert q provider never_observed
        (λ h. record h { last_success_at = some now; consecutive_network_failures = 0 }) before in
    let earlier = provider_snapshot-after_reports provider es in
    ground (arith, stored, earlier, find-same q provider before)
provider_snapshot-after_reports provider (unreachable q ∷ es) =
    let before = (after_reports es).providers in
    let stored =
      find-upsert q provider never_observed
        (λ h. record h { consecutive_network_failures = h.consecutive_network_failures + 1 })
        before in
    let earlier = provider_snapshot-after_reports provider es in
    ground (arith, stored, earlier, find-same q provider before)
