-- ===== src/QueryResults/Bounds.antt =====
-- The bounds of the registry in
-- src/xpd_report_agent/hermes_plugin/db_query/query_results.py, and what it hands out.
use xpd_report_agent.Prelude.Patterns.{is_result_id}
use xpd_report_agent.Prelude.Env.{unset, malformed, number}
use xpd_report_agent.QueryResults.Eviction.{
  prune-length, make_room-Shrinks, prune-Shrinks, make_room-fits, Shrinks,
}
use xpd_report_agent.Prelude.Env.{number, clamp, Setting}
use xpd_report_agent.QueryResults.Registry.{
  store_for, get_for, max_total_bytes, max_bytes_per_result, is_of, prune, payload, make_room,
  bytes, Query, Item, store, safe_session_id, max_results_per_session, max_results, get,
  bounded_env, Settings,
}
use xpd_report_agent.Prelude.Json.{negsuc, pos, ℤ}
use xpd_report_agent.Prelude.Dict.{insert, Dict}
use xpd_report_agent.Prelude.{
  sum_by-filter, length-sum_by, sum_by, ℕ, ◌+◌, ◌≤◌, ◌<◌, String, ◌≡◌, refl, inl, inr, true, ◌||◌,
  Option, none, some, [], ◌∷◌, arith, ltb, str_eq, eq_iff, if◌then◌else◌, Bool-cases, length,
  filter,
}

-- The configured limits on entries, bytes, and entries of one session.
pub record IsBounded (s : Settings) (d : Dict Item) : Type 0 where
  pub entries : length d ≤ max_results s
  pub total : bytes d ≤ max_total_bytes s
  pub owned : (session : String) → length (filter (is_of session) d) ≤ max_results_per_session s

clamp-ge : (low high : ℕ) (n : ℤ) → low ≤ high → low ≤ clamp low high n
clamp-ge low high (pos n) h = omega arith
clamp-ge low high (negsuc n) h = omega arith

-- A setting never falls below its lower bound.
bounded_env-ge :
    (v : Setting) (default low high : ℕ)
    → low ≤ default
    → low ≤ high
    → low ≤ bounded_env v default low high
unfolding bounded_env
bounded_env-ge unset default low high h k = clamp-ge low high (pos default) k
bounded_env-ge malformed default low high h k = h
bounded_env-ge (number n) default low high h k = clamp-ge low high n k

pub max_results_per_session-pos : (s : Settings) → 0 < max_results_per_session s
unfolding max_results_per_session
max_results_per_session-pos s = bounded_env-ge s.per_session 20 1 1000 (omega arith) (omega arith)

pub max_results-pos : (s : Settings) → 0 < max_results s
unfolding max_results
max_results-pos s = omega (arith, bounded_env-ge s.entries 500 10 5000 (omega arith) (omega arith))

Shrinks-count :
    (session : String) (d d' : Dict Item)
    → Shrinks d d'
    → length (filter (is_of session) d') ≤ length (filter (is_of session) d)
Shrinks-count session d d' h = omega (
  arith,
  length-sum_by (filter (is_of session) d'),
  sum_by-filter (is_of session) (λ x. 1) d',
  h (λ x. if is_of session x then 1 else 0),
  length-sum_by (filter (is_of session) d),
  sum_by-filter (is_of session) (λ x. 1) d,
)

Shrinks-IsBounded :
    (s : Settings) (d d' : Dict Item) → Shrinks d d' → IsBounded s d → IsBounded s d'
Shrinks-IsBounded s d d' h b = record {
  entries = omega (arith, h (λ e. 1), length-sum_by d, length-sum_by d', b.entries);
  total = omega (arith, h (λ e. e.1.size_bytes), b.total);
  owned = λ session. omega (arith, Shrinks-count session d d' h, b.owned session);
}

bytes-insert-le :
    (f : Item → ℕ) (id : String) (item : Item) (d : Dict Item)
    → sum_by (λ e. f e.1) (insert id item d) ≤ sum_by (λ e. f e.1) d + f item
unfolding insert
bytes-insert-le f id item [] = omega arith
bytes-insert-le f id item (e ∷ d) = ground (arith, bytes-insert-le f id item d)

insert-IsBounded :
    (s : Settings) (id : String) (item : Item) (d : Dict Item)
    → IsBounded s d
    → length d < max_results s
    → bytes d + item.size_bytes ≤ max_total_bytes s
    → length (filter (is_of item.session_id) d) < max_results_per_session s
    → IsBounded s (insert id item d)
insert-IsBounded s id item d b n t o = record {
  entries = omega (
    arith,
    length-sum_by (insert id item d),
    length-sum_by d,
    bytes-insert-le (λ x. 1) id item d,
  );
  total = omega (arith, bytes-insert-le (λ x. x.size_bytes) id item d);
  owned = λ session. ground (
    arith,
    eq_iff item.session_id session,
    b.owned session,
    length-sum_by (filter (is_of session) (insert id item d)),
    sum_by-filter (is_of session) (λ x. 1) (insert id item d),
    length-sum_by (filter (is_of session) d),
    sum_by-filter (is_of session) (λ x. 1) d,
    bytes-insert-le (λ x. if str_eq x.session_id session then 1 else 0) id item d,
  );
}

stored-IsBounded :
    (s : Settings) (q : Query) (size : ℕ) (d : Dict Item)
    → IsBounded s d
    → (make_room s q.session_id size (prune s q.now 1 d)).1 ≡ true
    → IsBounded s
        (insert q.new_id (payload s q size) (make_room s q.session_id size (prune s q.now 1 d)).0)
stored-IsBounded s q size d b ok =
    let live = prune s q.now 1 d in
    let roomy = (make_room s q.session_id size live).0 in
    let fits = make_room-fits s q.session_id size live (max_results_per_session-pos s) ok in
    let small = make_room-Shrinks s q.session_id size live in
    insert-IsBounded s q.new_id (payload s q size) roomy
      (Shrinks-IsBounded s live roomy small
        (Shrinks-IsBounded s d live (prune-Shrinks s q.now 1 d) b))
      (omega (
        arith,
        prune-length s q.now 1 d,
        max_results-pos s,
        small (λ e. 1),
        length-sum_by roomy,
        length-sum_by live,
      ))
      fits.1 fits.0

pub safe_session_id-eq :
    (session : String) {t : String} → safe_session_id session ≡ some t → t ≡ session
unfolding safe_session_id
safe_session_id-eq session h = ground arith

store_for-IsBounded :
    (payload_size : Item → ℕ) (s : Settings) (q : Query) (d : Dict Item) (o : Option String)
    → safe_session_id q.session_id ≡ o
    → IsBounded s d
    → IsBounded s (store_for payload_size s q d o).0
unfolding store_for
store_for-IsBounded payload_size s q d none e b = b
store_for-IsBounded payload_size s q d (some t) e b =
    rw (safe_session_id-eq q.session_id e)
      (elim (Bool-cases (ltb (max_bytes_per_result s) size || ltb (max_total_bytes s) size)) [
        | inl big ↦ rw big b
        | inr fits ↦ elim (Bool-cases (make_room s q.session_id size live).1) [
          | inl roomy ↦ rw (fits, roomy) (stored-IsBounded s q size d b roomy)
          | inr crowded ↦
              rw (fits, crowded)
                (Shrinks-IsBounded s live _ (make_room-Shrinks s q.session_id size live)
                  (Shrinks-IsBounded s d live (prune-Shrinks s q.now 1 d) b))
        ]
      ])
  where
    size : ℕ
    size = payload_size (payload s q 0)

    live : Dict Item
    live = prune s q.now 1 d

-- A call of `store`, whether it keeps the result or refuses it, leaves the registry within its
-- limits on entries, on bytes and on entries of each session.
pub store-IsBounded :
    (payload_size : Item → ℕ) (s : Settings) (q : Query) (d : Dict Item)
    → IsBounded s d
    → IsBounded s (store payload_size s q d).0
unfolding store
store-IsBounded payload_size s q d =
    store_for-IsBounded payload_size s q d (safe_session_id q.session_id) refl

get_for-IsBounded :
    (s : Settings) (id : String) (now : ℕ) (d : Dict Item) (o : Option String)
    → IsBounded s d
    → IsBounded s (get_for s id now d o).0
unfolding get_for
get_for-IsBounded s id now d none b = b
get_for-IsBounded s id now d (some t) b = elim (Bool-cases (is_result_id id)) [
  | inl v ↦ rw v (Shrinks-IsBounded s d (prune s now 0 d) (prune-Shrinks s now 0 d) b)
  | inr v ↦ rw v b
]

-- A call of `get` leaves the registry within its limits.
get-IsBounded :
    (s : Settings) (id session : String) (now : ℕ) (d : Dict Item)
    → IsBounded s d
    → IsBounded s (get s id session now d).0
unfolding get
get-IsBounded s id session now d = get_for-IsBounded s id now d (safe_session_id session)
