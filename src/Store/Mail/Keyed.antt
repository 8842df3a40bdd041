-- ===== src/Store/Mail/Keyed.antt =====
-- The unique indexes on (account_id, server_id) of internal/store/migrations/0001_initial.sql.
use beautiful_aerc.Prelude.{
  ℕ, String, List, [], ◌∷◌, ◌++◌, Option, none, some, Bool, true, false, ◌&&◌, ◌≡◌, refl, arith,
  nat_eq, string_eq, All, find, any, filter, map_where, if◌then◌else◌, All-append, Bool-cases, inl,
  inr,
}
use beautiful_aerc.Prelude.Rows.{All-filter}
use beautiful_aerc.Store.Mail.{is_key}

-- the rows of one key, compared
abbrev pub has_key_of : ℕ → Option String → ℕ → Option String → Bool
has_key_of a none b y = false
has_key_of a (some s) b y = is_key a s b y

has_key_of-other :
    (a b c : ℕ) (s : String) (x y : Option String)
    → is_key a s b x ≡ true
    → has_key_of b x c y ≡ false
    → is_key a s c y ≡ false
has_key_of-other a b c s none y h k = ground arith
has_key_of-other a b c s (some u) none h k = refl
has_key_of-other a b c s (some u) (some v) h k = ground (
  arith,
  string_eq.same_iff u s,
  nat_eq.same_iff b a,
  string_eq.same_iff v u,
  string_eq.same_iff v s,
)

has_key_of_sym :
    (a b : ℕ) (s : String) (x : Option String)
    → is_key b s a x ≡ false
    → has_key_of a x b (some s) ≡ false
has_key_of_sym a b s none h = refl
has_key_of_sym a b s (some u) h = ground (arith, string_eq.same_iff u s, string_eq.same_iff s u)

module _ {ℓ} {R : Type ℓ} (account : R → ℕ) (server_id : R → Option String) where
  abbrev pub same_key : R → R → Bool
  same_key r t = has_key_of (account r) (server_id r) (account t) (server_id t)

  -- no two rows have one key
  abbrev pub Keyed : List R → Type ℓ
  Keyed [] = Unit
  Keyed (r ∷ rs) = All (λ t. same_key r t ≡ false) rs × Keyed rs

  none_else :
      (p : R → Bool) (a : ℕ) (s : String) (r : R) (rs : List R)
      → is_key a s (account r) (server_id r) ≡ true
      → All (λ t. same_key r t ≡ false) rs
      → any (λ t. p t && is_key a s (account t) (server_id t)) rs ≡ false
  none_else p a s r [] h d = refl
  none_else p a s r (t ∷ rs) h d = ground (
    arith,
    has_key_of-other a (account r) (account t) s (server_id r) (server_id t) h d.0,
    none_else p a s r rs h d.1,
  )

  pub find-any :
      (p : R → Bool) (a : ℕ) (s : String) (rs : List R)
      → Keyed rs
      → (elim (find (λ r. is_key a s (account r) (server_id r)) rs) [ none ↦ false | some r ↦ p r ])
        ≡ any (λ r. p r && is_key a s (account r) (server_id r)) rs
  find-any p a s [] d = refl
  find-any p a s (r ∷ rs) d = elim (Bool-cases (is_key a s (account r) (server_id r))) [
    | inl here ↦ rw (here, none_else p a s r rs here d.0) (ground arith)
    | inr later ↦ rw (later, find-any p a s rs d.1) (ground arith)
  ]

  pub Keyed-insert :
      (rs : List R) (r : R) (s : String)
      → server_id r ≡ some s
      → find (λ t. is_key (account r) s (account t) (server_id t)) rs ≡ none
      → Keyed rs
      → Keyed (rs ++ r ∷ [])
  Keyed-insert [] r s e h d = (tt, tt)
  Keyed-insert (t ∷ rs) r s e h d =
      let apart : is_key (account r) s (account t) (server_id t) ≡ false = ground arith in
      let new : same_key t r ≡ false =
        rw e (has_key_of_sym (account t) (account r) s (server_id t) apart) in
      let later : find (λ u. is_key (account r) s (account u) (server_id u)) rs ≡ none =
        ground arith in
      (
        All-append (λ u. same_key t u ≡ false) rs (r ∷ []) d.0 (new, tt),
        Keyed-insert rs r s e later d.1,
      )

  pub Keyed-filter : (q : R → Bool) (rs : List R) → Keyed rs → Keyed (filter q rs)
  Keyed-filter q [] d = d
  Keyed-filter q (r ∷ rs) d =
      ground (arith, All-filter (λ t. same_key r t ≡ false) q rs d.0, Keyed-filter q rs d.1)

  pub Keyed-map_where :
      (p : R → Bool) (f : R → R) (rs : List R)
      → ((r : R) → account (f r) ≡ account r)
      → ((r : R) → server_id (f r) ≡ server_id r)
      → Keyed rs
      → Keyed (map_where p f rs)
  Keyed-map_where p f [] g h d = d
  Keyed-map_where p f (r ∷ rs) g h d = (apart rs d.0, Keyed-map_where p f rs g h d.1)
    where
      kept :
          (t : R)
          → (account (if p t then f t else t) ≡ account t)
            × (server_id (if p t then f t else t) ≡ server_id t)
      kept t =
          elim (p t)
            as (λ b.
              (account (if b then f t else t) ≡ account t)
              × (server_id (if b then f t else t) ≡ server_id t)) [
                | true ↦ (g t, h t)
                | false ↦ (refl, refl)
              ]

      apart :
          (ts : List R)
          → All (λ t. same_key r t ≡ false) ts
          → All (λ t. same_key (if p r then f r else r) t ≡ false) (map_where p f ts)
      apart [] k = k
      apart (t ∷ ts) k = (rw ((kept r).0, (kept r).1, (kept t).0, (kept t).1) k.0, apart ts k.1)
