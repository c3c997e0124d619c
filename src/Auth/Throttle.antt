-- ===== src/Auth/Throttle.antt =====
-- That a login or a reset request that has used up its attempts is refused until the window ends.
use reeva.Prelude.{
  ℕ, ◌+◌, ◌≤◌, ◌<◌, ◌≡◌, ◌⊎◌, sym, ◌∙◌, ap, Bool, true, false, Option, some, List, [], ◌∷◌, Text,
  arith, same, leb, ltb, find, Bool-cases, inl, inr, All, same→eq, remove, refl,
}
use reeva.Auth.{
  Hashing, Action, RateLimit, bump, increment, counted, attempts_of, sweep, ip_key, identity_key,
  ip_limit, identity_limit, login, is_auth_request_throttled, clear_login_attempts,
}

-- The counter of `key` has at least `limit` attempts, in a window that ends at `until`.
abbrev pub IsSpent : Text → ℕ → ℕ → List RateLimit → Type 0
IsSpent key limit until rows =
    (r : RateLimit) × (find (λ (r : RateLimit). same r.key key) rows ≡ some r)
    × (limit ≤ r.attempts)
    × (r.window_ends_at ≡ until)

find_head :
    (key : Text) (x : RateLimit) (rows : List RateLimit)
    → same x.key key ≡ true
    → find (λ (r : RateLimit). same r.key key) (x ∷ rows) ≡ some x
find_head key x rows t = rw t

find_tail :
    (key : Text) (x : RateLimit) (rows : List RateLimit)
    → same x.key key ≡ false
    → find (λ (r : RateLimit). same r.key key) (x ∷ rows)
      ≡ find (λ (r : RateLimit). same r.key key) rows
find_tail key x rows f = rw f

some-eq : {A : Type 0} {a b : A} → ◌≡◌ {A = Option A} (some a) (some b) → a ≡ b
some-eq e = cc

-- The row at the head of the table is the spent one, or the spent one is further on.
IsSpent-cases :
    (key : Text) (limit until : ℕ) (x : RateLimit) (rows : List RateLimit)
    → IsSpent key limit until (x ∷ rows)
    → ((same x.key key ≡ true) × (limit ≤ x.attempts) × (x.window_ends_at ≡ until))
      ⊎ ((same x.key key ≡ false) × IsSpent key limit until rows)
IsSpent-cases key limit until x rows (r, e, n, u) = elim (Bool-cases (same x.key key)) [
  | inl t ↦ let q = some-eq (sym (find_head key x rows t) ∙ e) in inl (t, rw q n, rw q u)
  | inr f ↦ inr (f, (r, sym (find_tail key x rows f) ∙ e, n, u))
]

cons-IsSpent :
    (key : Text) (limit until : ℕ) (x : RateLimit) (rows : List RateLimit)
    → same x.key key ≡ true
    → limit ≤ x.attempts
    → x.window_ends_at ≡ until
    → IsSpent key limit until (x ∷ rows)
cons-IsSpent key limit until x rows t n u = (x, find_head key x rows t, n, u)

cons_other-IsSpent :
    (key : Text) (limit until : ℕ) (x : RateLimit) (rows : List RateLimit)
    → same x.key key ≡ false
    → IsSpent key limit until rows
    → IsSpent key limit until (x ∷ rows)
cons_other-IsSpent key limit until x rows f (r, e, n, u) = (r, find_tail key x rows f ∙ e, n, u)

bump_key : (x : RateLimit) (now : ℕ) → (bump x now).key ≡ x.key
bump_key x now = ground arith

bump_open :
    (x : RateLimit) (now until : ℕ)
    → now < until
    → x.window_ends_at ≡ until
    → ((bump x now).attempts ≡ x.attempts + 1) × ((bump x now).window_ends_at ≡ until)
bump_open x now until lt u = (ground arith, ground arith)

increment-IsSpent :
    (key other : Text) (limit until now : ℕ) (rows : List RateLimit)
    → now < until
    → IsSpent key limit until rows
    → IsSpent key limit until (increment other now rows)
unfolding increment
increment-IsSpent key other limit until now [] lt (r, e, n, u) = cc
increment-IsSpent key other limit until now (x ∷ rows) lt h =
    elim (IsSpent-cases key limit until x rows h) [
      | inl (t, n, u) ↦ elim (Bool-cases (same x.key other)) [
        | inl k ↦
            let (a, w) = bump_open x now until lt u in
            rw k (
              cons-IsSpent key limit until (bump x now) rows (rw (bump_key x now) t)
                (omega (arith, a, n)) w)
        | inr k ↦ rw k (cons-IsSpent key limit until x _ t n u)
      ]
      | inr (f, m) ↦ elim (Bool-cases (same x.key other)) [
        | inl k ↦
            rw k (cons_other-IsSpent key limit until (bump x now) rows (rw (bump_key x now) f) m)
        | inr k ↦ rw k (
            cons_other-IsSpent key limit until x _ f
              (increment-IsSpent key other limit until now rows lt m))
      ]
    ]

attempts_head :
    (key : Text) (x : RateLimit) (rows : List RateLimit)
    → same x.key key ≡ true
    → attempts_of key (x ∷ rows) ≡ x.attempts
unfolding attempts_of
attempts_head key x rows t = ap counted (find_head key x rows t)

attempts_tail :
    (key : Text) (x : RateLimit) (rows : List RateLimit)
    → same x.key key ≡ false
    → attempts_of key (x ∷ rows) ≡ attempts_of key rows
unfolding attempts_of
attempts_tail key x rows f = ap counted (find_tail key x rows f)

-- One more attempt on the spent counter itself goes beyond the limit.
increment_beyond :
    (key : Text) (limit until now : ℕ) (rows : List RateLimit)
    → now < until
    → IsSpent key limit until rows
    → ltb limit (attempts_of key (increment key now rows)) ≡ true
unfolding increment
increment_beyond key limit until now [] lt (r, e, n, u) = cc
increment_beyond key limit until now (x ∷ rows) lt h =
    elim (IsSpent-cases key limit until x rows h) [
      | inl (t, n, u) ↦
          let (a, w) = bump_open x now until lt u in
          rw (t, attempts_head key (bump x now) rows (rw (bump_key x now) t)) (ground (arith, a, n))
      | inr (f, m) ↦
          rw (f, attempts_tail key x (increment key now rows) f)
            (increment_beyond key limit until now rows lt m)
    ]

sweep-IsSpent :
    (key : Text) (limit until now : ℕ) (rows : List RateLimit)
    → now < until
    → IsSpent key limit until rows
    → IsSpent key limit until (sweep now rows)
unfolding sweep
sweep-IsSpent key limit until now [] lt h = h
sweep-IsSpent key limit until now (x ∷ rows) lt h = elim (IsSpent-cases key limit until x rows h) [
  | inl (t, n, u) ↦
      let f : leb x.window_ends_at now ≡ false = ground arith in
      rw f (cons-IsSpent key limit until x _ t n u)
  | inr (f, m) ↦ elim (Bool-cases (leb x.window_ends_at now)) [
    | inl k ↦ rw k (sweep-IsSpent key limit until now rows lt m)
    | inr k ↦
        rw k
          (cons_other-IsSpent key limit until x _ f (sweep-IsSpent key limit until now rows lt m))
  ]
]

-- A request that is counted, and the table after it.
pub record Attempt : Type 0 where
  pub action : Action
  pub ip : Text
  pub identity : Text
  pub now : ℕ

abbrev pub after : Hashing → Attempt → List RateLimit → List RateLimit
after h a rows = (is_auth_request_throttled h a.action a.ip a.identity a.now rows).1

abbrev pub is_refused : Hashing → Attempt → List RateLimit → Bool
is_refused h a rows = (is_auth_request_throttled h a.action a.ip a.identity a.now rows).0

-- A spent counter stays spent, whoever asks for whatever.
after-IsSpent :
    (h : Hashing) (a : Attempt) (key : Text) (limit until : ℕ) (rows : List RateLimit)
    → a.now < until
    → IsSpent key limit until rows
    → IsSpent key limit until (after h a rows)
unfolding is_auth_request_throttled
after-IsSpent h a key limit until rows lt s =
    let s1 = increment-IsSpent key (ip_key h a.action a.ip) limit until a.now rows lt s in
    let s2 = increment-IsSpent key (identity_key h a.action a.identity) limit until a.now _ lt s1 in
    elim (Bool-cases (
      ltb (ip_limit a.action)
        (attempts_of (ip_key h a.action a.ip) (increment (ip_key h a.action a.ip) a.now rows)))) [
          | inl t ↦ rw (t, after) (sweep-IsSpent key limit until a.now _ lt s1)
          | inr f ↦ rw (f, after) (sweep-IsSpent key limit until a.now _ lt s2)
        ]

spent_refused :
    (h : Hashing) (a : Attempt) (until : ℕ) (rows : List RateLimit)
    → a.now < until
    → IsSpent (identity_key h a.action a.identity) (identity_limit a.action) until rows
    → is_refused h a rows ≡ true
unfolding is_auth_request_throttled
spent_refused h a until rows lt s =
    elim (Bool-cases (
      ltb (ip_limit a.action)
        (attempts_of (ip_key h a.action a.ip) (increment (ip_key h a.action a.ip) a.now rows)))) [
          | inl t ↦ rw (t, is_refused)
          | inr f ↦
              rw (f, is_refused)
                (increment_beyond _ (identity_limit a.action) until a.now _ lt (
                  increment-IsSpent _ (ip_key h a.action a.ip) (identity_limit a.action) until a.now
                    rows lt s))
        ]

-- What the requests of other clients do to the table: a counted request, and a login that succeeds
-- after it was counted, which takes away the counters of its address and its identity
pub data Event : Type 0 where
  counted_request : Attempt → Event
  cleared : (ip identity : Text) → Event

unfoldable pub effect : Hashing → Event → List RateLimit → List RateLimit
effect h (counted_request a) rows = after h a rows
effect h (cleared ip identity) rows = clear_login_attempts h ip identity rows

-- The table after a sequence of events
unfoldable pub after_all : Hashing → List Event → List RateLimit → List RateLimit
after_all h [] rows = rows
after_all h (e ∷ rest) rows = after_all h rest (effect h e rows)

-- An event before `until`; if it is a login that succeeds, then the counters that it takes away
-- have other keys than `key`.
unfoldable pub Spares : Hashing → Text → ℕ → Event → Type 0
Spares h key until (counted_request a) = a.now < until
Spares h key until (cleared ip identity) =
    (same (ip_key h login ip) key ≡ false) × (same (identity_key h login identity) key ≡ false)

other_key : (k key other : Text) → same k key ≡ true → same other key ≡ false → same k other ≡ false
other_key k key other t f = elim (Bool-cases (same k other)) [
  | inl e ↦ let e1 = same→eq k other e in absurd (cc (t, f, e1))
  | inr e ↦ e
]

-- A removal that keeps the rows of a key keeps its spent counter.
remove-IsSpent :
    (p : RateLimit → Bool) (key : Text) (limit until : ℕ) (rows : List RateLimit)
    → ((r : RateLimit) → same r.key key ≡ true → p r ≡ false)
    → IsSpent key limit until rows
    → IsSpent key limit until (remove p rows)
remove-IsSpent p key limit until [] keeps h = h
remove-IsSpent p key limit until (x ∷ rows) keeps h =
    elim (IsSpent-cases key limit until x rows h) [
      | inl (t, n, u) ↦ rw (keeps x t) (cons-IsSpent key limit until x _ t n u)
      | inr (f, m) ↦ elim (Bool-cases (p x)) [
        | inl k ↦ rw k (remove-IsSpent p key limit until rows keeps m)
        | inr k ↦ rw k (
            cons_other-IsSpent key limit until x _ f
              (remove-IsSpent p key limit until rows keeps m))
      ]
    ]

effect-IsSpent :
    (h : Hashing) (e : Event) (key : Text) (limit until : ℕ) (rows : List RateLimit)
    → Spares h key until e
    → IsSpent key limit until rows
    → IsSpent key limit until (effect h e rows)
unfolding effect clear_login_attempts Spares
effect-IsSpent h (counted_request a) key limit until rows lt s =
    after-IsSpent h a key limit until rows lt s
effect-IsSpent h (cleared ip identity) key limit until rows (f, g) s =
    remove-IsSpent _ key limit until rows
      (λ r t.
        rw
          (
            other_key r.key key (ip_key h login ip) t f,
            other_key r.key key (identity_key h login identity) t g,
          )
          refl)
      s

after_all-IsSpent :
    (h : Hashing) (rest : List Event) (key : Text) (limit until : ℕ) (rows : List RateLimit)
    → All (Spares h key until) rest
    → IsSpent key limit until rows
    → IsSpent key limit until (after_all h rest rows)
unfolding after_all
after_all-IsSpent h [] key limit until rows spares s = s
after_all-IsSpent h (e ∷ rest) key limit until rows (q, spares) s =
    after_all-IsSpent h rest key limit until _ spares (effect-IsSpent h e key limit until rows q s)

-- Once the counter of an identity has reached its limit in a window, every further request for this
-- identity is refused before the window ends, whatever requests came in between before that end,
-- counted ones and logins that succeeded, unless a login that succeeded took away a counter of the
-- same key, as one of this identity does.
pub after_all_refused :
    (h : Hashing) (rest : List Event) (a : Attempt) (until : ℕ) (rows : List RateLimit)
    → IsSpent (identity_key h a.action a.identity) (identity_limit a.action) until rows
    → All (Spares h (identity_key h a.action a.identity) until) rest
    → a.now < until
    → is_refused h a (after_all h rest rows) ≡ true
after_all_refused h rest a until rows s spares lt =
    spent_refused h a until _ lt (after_all-IsSpent h rest _ _ until rows spares s)
