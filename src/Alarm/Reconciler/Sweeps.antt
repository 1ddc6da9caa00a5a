-- ===== src/Alarm/Reconciler/Sweeps.antt =====
-- What a sweep of alarm/reconciler.rs raises and clears.
use crypto_collector.Prelude.{
  any-append, String, Bool, true, false, List, [], ◌∷◌, ◌≡◌, refl, arith, any, ◌&&◌, ◌||◌, not, map,
  filter_by, str_eq, str_eq_iff, any-sort_by, Bool-cases, inl, inr, subst, ◌∙◌,
}
use crypto_collector.Alarm.Catalog.{Severity, Condition, fingerprint}
use crypto_collector.Table.{upsert, string_key}
use crypto_collector.Alarm.Health.{HealthRegistry}
use crypto_collector.Alarm.Reconciler.Sweep.{
  Sent, raise, clear, Readings, Reconciler, Thresholds, raise_of, described, mark, sweep_conditions,
  collect, sweep_once,
}
use crypto_collector.Alarm.Reconciler.{compute_sweep_actions, has_fingerprint, is_urgent, str_leb}

-- The pair is recovered and urgent.
abbrev pub is_recovered : List (String × Severity) → String × Severity → Bool
is_recovered desired p = not (has_fingerprint desired p.0) && is_urgent p.1

any-recovered :
    (fp : String) (desired active : List (String × Severity))
    → any (str_eq fp) (
        map
          (λ p. p.0)
          (filter_by
            (λ p. is_urgent p.1)
            (filter_by (λ p. not (has_fingerprint desired p.0)) active)))
      ≡ any (λ p. str_eq fp p.0 && is_recovered desired p) active
any-recovered fp desired [] = refl
any-recovered fp desired (p ∷ active) = ground (arith, any-recovered fp desired active)

-- The fast clear of a sweep names exactly the fingerprints that were active before with an error or
-- critical severity and are not desired now; warnings are left to expire.
pub fast_clear-recovered :
    (fp : String) (desired active : List (String × Severity))
    → any (str_eq fp) (compute_sweep_actions desired active).fast_clear
      ≡ any (λ p. str_eq fp p.0 && is_recovered desired p) active
unfolding compute_sweep_actions
fast_clear-recovered fp desired active = ground (
  arith,
  any-sort_by (str_eq fp) str_leb (
      map (λ p. p.0)
        (filter_by (λ p. is_urgent p.1)
          (filter_by (λ p. not (has_fingerprint desired p.0)) active))),
  any-recovered fp desired active,
)

raised-has_fingerprint :
    (fp : String) (desired : List (String × Severity))
    → any (str_eq fp) (map (λ d. d.0) desired) ≡ has_fingerprint desired fp
raised-has_fingerprint fp [] = refl
raised-has_fingerprint fp (d ∷ desired) =
    ground (arith, str_eq_iff fp d.0, str_eq_iff d.0 fp, raised-has_fingerprint fp desired)

none_recovered :
    (fp : String) (desired active : List (String × Severity))
    → has_fingerprint desired fp ≡ true
    → any (λ p. str_eq fp p.0 && is_recovered desired p) active ≡ false
none_recovered fp desired [] h = refl
none_recovered fp desired (p ∷ active) h = elim (Bool-cases (str_eq fp p.0)) [
  | inl same ↦
      let here : has_fingerprint desired p.0 ≡ true =
        subst (λ q. has_fingerprint desired q ≡ true) ((str_eq_iff fp p.0).0 same) h in
      ground (arith, none_recovered fp desired active h)
  | inr other ↦ ground (arith, none_recovered fp desired active h)
]

-- No sweep clears what it raises.
pub to_raise-not_cleared :
    (fp : String) (desired active : List (String × Severity))
    → any (str_eq fp) (compute_sweep_actions desired active).to_raise ≡ true
    → any (str_eq fp) (compute_sweep_actions desired active).fast_clear ≡ false
unfolding compute_sweep_actions
to_raise-not_cleared fp desired active h =
    fast_clear-recovered fp desired active
    ∙ none_recovered fp desired active (ground (arith, raised-has_fingerprint fp desired))

-- Whether a message clears the fingerprint.
abbrev pub is_clear : String → Sent → Bool
is_clear fp (raise c count) = false
is_clear fp (clear q) = str_eq fp q

any-raised :
    (fp : String) (s : Readings) (conditions : List Condition)
    → any (is_clear fp) (map (raise_of s) conditions) ≡ false
any-raised fp s [] = refl
any-raised fp s (c ∷ conditions) = ground (arith, any-raised fp s conditions)

any-cleared :
    (fp : String) (fps : List String) → any (is_clear fp) (map clear fps) ≡ any (str_eq fp) fps
any-cleared fp [] = refl
any-cleared fp (q ∷ fps) = ground (arith, any-cleared fp fps)

has_fingerprint-upsert :
    (fp q : String) (sev : Severity) (m : List (String × Severity))
    → has_fingerprint (upsert q sev (λ old. sev) m) fp ≡ (str_eq q fp || has_fingerprint m fp)
unfolding upsert
has_fingerprint-upsert fp q sev [] = refl
has_fingerprint-upsert fp q sev (p ∷ m) =
    ground (
      arith,
      str_eq_iff p.0 q,
      str_eq_iff p.0 fp,
      str_eq_iff q fp,
      has_fingerprint-upsert fp q sev m,
    )

has_fingerprint-collect :
    (fp : String) (ds m : List (String × Severity))
    → has_fingerprint (collect ds m) fp ≡ (has_fingerprint ds fp || has_fingerprint m fp)
has_fingerprint-collect fp [] m = refl
has_fingerprint-collect fp (d ∷ ds) m = ground (
  arith,
  has_fingerprint-collect fp ds (upsert d.0 d.1 (λ old. d.1) m),
  has_fingerprint-upsert fp d.0 d.1 m,
)

-- The pairs that a sweep wants active.
abbrev pub desired_of :
    Thresholds → HealthRegistry → Readings → Reconciler → List (String × Severity)
desired_of h r s c = map described (sweep_conditions h r s (mark r s c))

-- A whole sweep clears exactly the fingerprints that were active with an error or critical severity and
-- are not desired now, and in the first sweep also the startup error; afterwards the active
-- fingerprints are the desired ones.
pub sweep_once_lem :
    (h : Thresholds) (r : HealthRegistry) (s : Readings) (c : Reconciler) (fp : String)
    → (any (is_clear fp) (sweep_once h r s c).1 ≡ (
        not c.first_sweep_done && str_eq fp (fingerprint Condition.startup_config_error)
        || any (λ p. str_eq fp p.0 && is_recovered (desired_of h r s c) p) c.previously_active))
      × (has_fingerprint (sweep_once h r s c).0.previously_active fp
          ≡ has_fingerprint (desired_of h r s c) fp)
unfolding sweep_once
sweep_once_lem h r s c fp =
    let desired = desired_of h r s c in
    let raised = map (raise_of s) (sweep_conditions h r s (mark r s c)) in
    let cleared = (compute_sweep_actions desired c.previously_active).fast_clear in
    (
      ground (
        arith,
        any-append (is_clear fp) raised (map clear cleared),
        any-raised fp s (sweep_conditions h r s (mark r s c)),
        any-cleared fp cleared,
        fast_clear-recovered fp desired c.previously_active,
      ),
      ground (arith, has_fingerprint-collect fp desired []),
    )
