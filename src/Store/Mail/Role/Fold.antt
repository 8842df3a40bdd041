-- ===== src/Store/Mail/Role/Fold.antt =====
-- foldDiacritics of internal/store/mailbox_role.go, rune by rune.
use Prim.Native.Char.{Char, code}
use mathlib.Core.List.{append_assoc}
use beautiful_aerc.Prelude.{
  arith, ℕ, List, [], ◌∷◌, ◌++◌, Option, none, some, ◌≡◌, refl, ap, subst, ◌∙◌, sym, ◌==◌, nat_eq,
  Map, lookup, All, Bool-cases, inl, inr,
}
use beautiful_aerc.Store.Mail.Role.{written, fold_rune, fold_runes, diacritic_fold}

fold_runes-append : (a b : List Char) → fold_runes (a ++ b) ≡ fold_runes a ++ fold_runes b
unfolding fold_runes
fold_runes-append [] b = refl
fold_runes-append (c ∷ a) b =
    ap (λ t. fold_rune c ++ t) (fold_runes-append a b)
    ∙ sym (append_assoc (fold_rune c) (fold_runes a) (fold_runes b))

-- what the table writes is plain
plain : All (λ e. fold_runes e.1 ≡ e.1) diacritic_fold
unfolding fold_runes
plain = (
  refl,
  (
    refl,
    (
      refl,
      (
        refl,
        (
          refl,
          (
            refl,
            (
              refl,
              (
                refl,
                (
                  refl,
                  (
                    refl,
                    (
                      refl,
                      (
                        refl,
                        (
                          refl,
                          (
                            refl,
                            (
                              refl,
                              (
                                refl,
                                (
                                  refl,
                                  (
                                    refl,
                                    (
                                      refl,
                                      (
                                        refl,
                                        (
                                          refl,
                                          (
                                            refl,
                                            (
                                              refl,
                                              (refl, (refl, (refl, (refl, (refl, (refl, tt)))))),
                                            ),
                                          ),
                                        ),
                                      ),
                                    ),
                                  ),
                                ),
                              ),
                            ),
                          ),
                        ),
                      ),
                    ),
                  ),
                ),
              ),
            ),
          ),
        ),
      ),
    ),
  ),
)

All-lookup :
    (P : List Char → Type 0) (k : ℕ) (m : Map ℕ (List Char)) (v : List Char)
    → All (λ e. P e.1) m
    → lookup k m ≡ some v
    → P v
All-lookup P k [] v h e = ground arith
All-lookup P k ((j, w) ∷ m) v h e = elim (Bool-cases (j == k)) [
  | inl here ↦ subst P (ap (λ o. elim o [ none ↦ w | some x ↦ x ]) (rw here at e)) h.0
  | inr later ↦ All-lookup P k m v h.1 (rw later at e)
]

fold-written :
    (c : Char) (o : Option (List Char))
    → lookup (code c) diacritic_fold ≡ o
    → fold_runes (written c o) ≡ written c o
unfolding fold_runes
fold-written c none e = rw e
fold-written c (some s) e = All-lookup (λ t. fold_runes t ≡ t) (code c) diacritic_fold s plain e

-- Folding the runes of a name leaves nothing to fold: a second folding changes nothing.
pub fold_runes-fold_runes : (rs : List Char) → fold_runes (fold_runes rs) ≡ fold_runes rs
unfolding fold_runes
fold_runes-fold_runes [] = refl
fold_runes-fold_runes (c ∷ cs) =
    fold_runes-append (fold_rune c) (fold_runes cs)
    ∙ ap (λ t. t ++ fold_runes (fold_runes cs))
        (fold-written c (lookup (code c) diacritic_fold) refl)
    ∙ ap (λ t. fold_rune c ++ t) (fold_runes-fold_runes cs)
