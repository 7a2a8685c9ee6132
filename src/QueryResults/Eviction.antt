-- ===== src/QueryResults/Eviction.antt =====
-- The loops of `_prune` and `_make_room` in
-- src/xpd_report_agent/hermes_plugin/db_query/query_results.py, by weighing the registry.
use xpd_report_agent.Prelude.Sort.{sum_by-sort}
use xpd_report_agent.QueryResults.Registry.{
  max_bytes_per_result, fit_bytes, max_total_bytes, is_of, max_results_per_session, max_results,
  Settings, prune, make_room, ids, bytes, older, by_age, Item, remove_all, evict_owned,
  evict_oldest,
}
use xpd_report_agent.Prelude.Dict.{sum_by-remove, sum_by-remove-le, remove, Dict}
use xpd_report_agent.Prelude.{
  length-drop, drop, take, leb→le, leb-false, inr, sum_by_mono, inl, leb, eq_refl, Bool-cases, ◌≡◌,
  sum_by-filter, str_eq, length-sum_by, ◌-◌, length, filter, ◌≤◌, ◌∷◌, ◌<◌, if◌then◌else◌, sum_by,
  arith, Bool, ℕ, List, String, zero, suc, ◌+◌, true, ◌||◌, [], ltb,
}

-- Whatever the weight, the entries of `d` that pass `q` weigh no more than the list.
abbrev pub Dominated : (String × Item → Bool) → Dict Item → Dict Item → Type 0
Dominated q d rest =
    (w : String × Item → ℕ) → sum_by (λ e. if q e then w e else 0) d ≤ sum_by w rest

-- Whatever the weight, `d'` weighs no more than `d`.
abbrev pub Shrinks : Dict Item → Dict Item → Type 0
Shrinks d d' = (w : String × Item → ℕ) → sum_by w d' ≤ sum_by w d

pub Dominated-sort :
    (q : String × Item → Bool) (d : Dict Item) → Dominated q d (by_age (filter q d))
Dominated-sort q d w = omega (arith, sum_by-sort older w (filter q d), sum_by-filter q w d)

-- To remove the first of the list keeps the bound by the rest.
Dominated-remove :
    (q : String × Item → Bool) (e : String × Item) (rest d : Dict Item)
    → Dominated q d (e ∷ rest)
    → Dominated q (remove e.0 d) rest
Dominated-remove q e rest d h w =
    let other : String × Item → ℕ = λ x. if str_eq x.0 e.0 then 0 else w x in
    omega (
      arith,
      sum_by-remove (λ x. if q x then w x else 0) e.0 d,
      sum_by_mono (λ (x : String × Item). if str_eq x.0 e.0 then 0 else (if q x then w x else 0))
          (λ (x : String × Item). if q x then other x else 0) d (λ x. ground arith),
      h other,
      gone,
      sum_by_mono other w rest (λ x. ground arith),
    )
  where
    gone : (if str_eq e.0 e.0 then 0 else w e) ≡ 0
    gone = rw eq_refl

evict_owned-count :
    (q : String × Item → Bool) (limit : ℕ) (owned d : Dict Item)
    → 0 < limit
    → Dominated q d owned
    → length (filter q (evict_owned limit owned d)) < limit
unfolding evict_owned
evict_owned-count q limit [] d pos h =
    omega (arith, length-sum_by (filter q d), sum_by-filter q (λ x. 1) d, h (λ x. 1))
evict_owned-count q limit (e ∷ owned) d pos h = elim (Bool-cases (leb limit (length (e ∷ owned)))) [
  | inl b ↦
      rw b (evict_owned-count q limit owned (remove e.0 d) pos (Dominated-remove q e owned d h))
  | inr b ↦ rw b (
      omega (
        arith,
        length-sum_by (filter q d),
        sum_by-filter q (λ x. 1) d,
        h (λ x. 1),
        length-sum_by (e ∷ owned),
        leb-false (limit) (length (e ∷ owned)) b,
      ))
]

pub evict_owned-Shrinks : (limit : ℕ) (owned d : Dict Item) → Shrinks d (evict_owned limit owned d)
unfolding evict_owned
evict_owned-Shrinks limit [] d w = omega arith
evict_owned-Shrinks limit (e ∷ owned) d w =
    ground (arith, evict_owned-Shrinks limit owned (remove e.0 d) w, sum_by-remove-le w e.0 d)

pub evict_oldest-Shrinks :
    (limit size total : ℕ) (rest d : Dict Item) → Shrinks d (evict_oldest limit size total rest d).0
unfolding evict_oldest
evict_oldest-Shrinks limit size total [] d w = omega arith
evict_oldest-Shrinks limit size total (e ∷ rest) d w = ground (
  arith,
  evict_oldest-Shrinks limit size (total - e.1.size_bytes) rest (remove e.0 d) w,
  sum_by-remove-le w e.0 d,
)

pub remove_all-Shrinks : (ks : List String) (d : Dict Item) → Shrinks d (remove_all ks d)
unfolding remove_all
remove_all-Shrinks [] d w = omega arith
remove_all-Shrinks (k ∷ ks) d w =
    omega (arith, remove_all-Shrinks ks (remove k d) w, sum_by-remove-le w k d)

-- The loop over all results says that there is room only if there is.
evict_oldest-fits :
    (limit size total : ℕ) (rest d : Dict Item)
    → Dominated (λ e. true) d rest
    → bytes rest ≤ total
    → (evict_oldest limit size total rest d).1 ≡ true
    → bytes (evict_oldest limit size total rest d).0 + size ≤ limit
unfolding evict_oldest
evict_oldest-fits limit size total [] d h t ok =
    omega (arith, leb→le (total + size) limit ok, h (λ e. e.1.size_bytes))
evict_oldest-fits limit size total (e ∷ rest) d h t ok =
    let left = total - e.1.size_bytes in
    let next = Dominated-remove (λ e. true) e rest d h in
    elim (Bool-cases (leb (left + size) limit)) [
      | inl b ↦ rw b (omega (arith, leb→le (left + size) limit b, next (λ e. e.1.size_bytes)))
      | inr b ↦
          rw b
            (evict_oldest-fits limit size left rest (remove e.0 d) next (omega arith) (rw b at ok))
    ]

-- What is left after the first `n` of the list are removed.
remove_all-Dominated :
    (q : String × Item → Bool) (n : ℕ) (rest d : Dict Item)
    → Dominated q d rest
    → Dominated q (remove_all (ids (take n rest)) d) (drop n rest)
unfolding remove_all
remove_all-Dominated q zero rest d h = h
remove_all-Dominated q (suc n) [] d h = h
remove_all-Dominated q (suc n) (e ∷ rest) d h =
    remove_all-Dominated q n rest (remove e.0 d) (Dominated-remove q e rest d h)

Dominated-all : (d : Dict Item) → Dominated (λ e. true) d (by_age d)
Dominated-all d w = omega (arith, sum_by-sort older w d)

pub prune-length :
    (s : Settings) (now reserve : ℕ) (d : Dict Item)
    → length (prune s now reserve d) ≤ max_results s - reserve
unfolding prune
prune-length s now reserve d =
    let live = remove_all (ids (filter (λ e. leb e.1.expires_at now) d)) d in
    let n = length live - (max_results s - reserve) in
    omega (
      arith,
      remove_all-Dominated (λ e. true) n (by_age live) live (Dominated-all live) (λ e. 1),
      length-sum_by (remove_all (ids (take n (by_age live))) live),
      length-sum_by (drop n (by_age live)),
      length-drop n (by_age live),
      length-sum_by (by_age live),
      sum_by-sort older (λ e. 1) live,
      length-sum_by live,
    )

pub prune-Shrinks :
    (s : Settings) (now reserve : ℕ) (d : Dict Item) → Shrinks d (prune s now reserve d)
unfolding prune
prune-Shrinks s now reserve d w =
    let dead = ids (filter (λ e. leb e.1.expires_at now) d) in
    let live = remove_all dead d in
    let n = length live - (max_results s - reserve) in
    omega
      (arith, remove_all-Shrinks (ids (take n (by_age live))) live w, remove_all-Shrinks dead d w)

fit_bytes-Shrinks : (limit size : ℕ) (d : Dict Item) → Shrinks d (fit_bytes limit size d).0
unfolding fit_bytes
fit_bytes-Shrinks limit size d w =
    ground (arith, evict_oldest-Shrinks limit size (bytes d) (by_age d) d w)

fit_bytes-fits :
    (limit size : ℕ) (d : Dict Item)
    → (fit_bytes limit size d).1 ≡ true
    → bytes (fit_bytes limit size d).0 + size ≤ limit
unfolding fit_bytes
fit_bytes-fits limit size d ok = elim (Bool-cases (leb (bytes d + size) limit)) [
  | inl b ↦ rw b (leb→le (bytes d + size) limit b)
  | inr b ↦ rw b (
      evict_oldest-fits limit size (bytes d) (by_age d) d (Dominated-all d)
        (omega (arith, sum_by-sort older (λ e. e.1.size_bytes) d)) (rw b at ok))
]

module _ (s : Settings) (session : String) (size : ℕ) (d : Dict Item) where
  pub make_room-Shrinks : Shrinks d (make_room s session size d).0
  unfolding make_room
  make_room-Shrinks w =
      let limit = max_results_per_session s in
      let d' = evict_owned limit (by_age (filter (is_of session) d)) d in
      ground (
        arith,
        evict_owned-Shrinks limit (by_age (filter (is_of session) d)) d w,
        fit_bytes-Shrinks (max_total_bytes s) size d' w,
      )

  -- Where `_make_room` says yes, the session has a free place and the bytes fit.
  pub make_room-fits :
      0 < max_results_per_session s
      → (make_room s session size d).1 ≡ true
      → (length (filter (is_of session) (make_room s session size d).0) < max_results_per_session s)
        × (bytes (make_room s session size d).0 + size ≤ max_total_bytes s)
  unfolding make_room
  make_room-fits pos ok =
      elim (Bool-cases (ltb (max_bytes_per_result s) size || ltb (max_total_bytes s) size)) [
        | inl b ↦ absurd (let no = rw b at ok in ground arith)
        | inr b ↦
            let limit = max_results_per_session s in
            let d' = evict_owned limit (by_age (filter (is_of session) d)) d in
            let d'' = (fit_bytes (max_total_bytes s) size d').0 in
            rw b (
              omega (
                arith,
                evict_owned-count (is_of session) limit (by_age (filter (is_of session) d)) d pos
                    (Dominated-sort (is_of session) d),
                length-sum_by (filter (is_of session) d'),
                sum_by-filter (is_of session) (λ x. 1) d',
                fit_bytes-Shrinks (max_total_bytes s) size d'
                    (λ x. if is_of session x then 1 else 0),
                length-sum_by (filter (is_of session) d''),
                sum_by-filter (is_of session) (λ x. 1) d'',
              ),
              fit_bytes-fits (max_total_bytes s) size d' (rw b at ok),
            )
      ]
