-- ===== src/Node/RateLimit/Window.antt =====
-- The times that a bucket keeps, against those of the requests it lets through: crates/node/src/rate_limit.rs.
use chain_registry_core.Prelude.{
  ℕ, ◌+◌, ◌-◌, ◌≤◌, ◌<◌, ◌≡◌, refl, sym, subst, inl, inr, Bool, true, ◌&&◌, List, [], ◌∷◌, ◌++◌,
  text_eq, ltb, leb, if◌then◌else◌, length, filterb, arith, Bool-cases,
}
use chain_registry_core.Prelude.Count.{count}
use chain_registry_core.Node.RateLimit.{Bucket, is_recent, is_allowed}

-- A time that lies in the window that ends at an instant.
abbrev pub in_window : ℕ → ℕ → ℕ → Bool
in_window window T t = ltb T (t + window) && leb t T

count-filterb :
    (p q : ℕ → Bool) (ts : List ℕ)
    → ((t : ℕ) → p t ≡ true → q t ≡ true)
    → count p (filterb q ts) ≡ count p ts
count-filterb p q [] h = refl
count-filterb p q (t ∷ ts) h = ground (arith, count-filterb p q ts h, h t)

count-length :
    (p q : ℕ → Bool) (ts : List ℕ)
    → ((t : ℕ) → p t ≡ true → q t ≡ true)
    → count p ts ≤ length (filterb q ts)
count-length p q [] h = omega arith
count-length p q (t ∷ ts) h = ground (arith, count-length p q ts h, h t)

count-append : (p : ℕ → Bool) (ts us : List ℕ) → count p (ts ++ us) ≡ count p ts + count p us
count-append p [] us = omega arith
count-append p (t ∷ ts) us = ground (arith, count-append p ts us)

-- The requests let through so far, against the times that the bucket holds: none that a later window
-- can contain is forgotten, and no window has too many.
pub record IsLimited (window limit since : ℕ) (log ts : List ℕ) : Type 0 where
  pub covered : (T : ℕ) → since ≤ T → count (in_window window T) log ≤ count (in_window window T) ts
  pub bounded : (T : ℕ) → count (in_window window T) log ≤ limit

abbrev pub Times : Type 0
Times = List ℕ

pub IsLimited-later :
    (w limit since now : ℕ) (log ts : Times)
    → since ≤ now
    → IsLimited w limit since log ts
    → IsLimited w limit now log ts
IsLimited-later w limit since now log ts le g = record {
  covered = λ T h. g.covered T (omega (arith, le, h));
  bounded = g.bounded;
}

-- Dropping what is too old at a time forgets nothing that a later window contains.
pub IsLimited-dropped :
    (w limit since now : ℕ) (log ts : Times) (q : ℕ → Bool)
    → since ≤ now
    → ((T t : ℕ) → now ≤ T → in_window w T t ≡ true → q t ≡ true)
    → IsLimited w limit since log ts
    → IsLimited w limit now log (filterb q ts)
IsLimited-dropped w limit since now log ts q le keep g = record {
  covered = λ T h.
      subst (λ n. count (in_window w T) log ≤ n)
        (sym (count-filterb (in_window w T) q ts (λ t. keep T t h)))
        (g.covered T (omega (arith, le, h)));
  bounded = g.bounded;
}

recent_kept : (w now T t : ℕ) → now ≤ T → in_window w T t ≡ true → is_recent w now t ≡ true
recent_kept w now T t le h = ground arith

pub young_kept : (w now T t : ℕ) → now ≤ T → in_window w T t ≡ true → ltb (now - t) w ≡ true
young_kept w now T t le h = ground arith

IsLimited-added :
    (w limit since now : ℕ) (log ts : Times)
    → since ≤ now
    → IsLimited w limit since log ts
    → length (filterb (is_recent w now) ts) < limit
    → IsLimited w limit now (now ∷ log) (filterb (is_recent w now) ts ++ now ∷ [])
IsLimited-added w limit since now log ts le g room =
    let recent = filterb (is_recent w now) ts in
    let kept =
      IsLimited-dropped w limit since now log ts (is_recent w now) le (recent_kept w now) g in
    record {
      covered =
          λ T h. ground (arith, kept.covered T h, count-append (in_window w T) recent (now ∷ []));
      bounded = λ T. elim (Bool-cases (leb now T)) [
        | inl reached ↦
            let at_or_after : now ≤ T = ground arith in
            ground (
              arith,
              g.covered T (omega (arith, le, at_or_after)),
              count-length (in_window w T) (is_recent w now) ts
                  (λ t. recent_kept w now T t at_or_after),
            )
        | inr before ↦ ground (arith, g.bounded T)
      ];
    }

pub IsLimited-is_allowed :
    (w limit since now : ℕ) (log : Times) (b : Bucket)
    → since ≤ now
    → IsLimited w limit since log b.timestamps
    → IsLimited w limit now
        (if (is_allowed w limit now b).0 then now ∷ log else log)
        (is_allowed w limit now b).1.timestamps
unfolding is_allowed
IsLimited-is_allowed w limit since now log b le g =
    let recent = filterb (is_recent w now) b.timestamps in
    let kept =
      IsLimited-dropped w limit since now log b.timestamps (is_recent w now) le (recent_kept w now)
        g in
    elim (Bool-cases (ltb (length recent) limit)) [
      | inl room ↦ rw room (IsLimited-added w limit since now log b.timestamps le g (ground arith))
      | inr full ↦ rw full kept
    ]
