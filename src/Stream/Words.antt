-- ===== src/Stream/Words.antt =====
-- Words of an input stream, as src/Server/Server.cpp and src/Storage/Persistence.cpp read them.
use kv_database.Prelude.{
  ℕ, ◌≡◌, ◌≢◌, refl, ap, ◌∙◌, true, false, [], ◌∷◌, ◌++◌, arith, Bytes, All, Bool-cases, inl, inr,
}
use kv_database.Stream.{is_space, skip_spaces, take_word, read_word}

-- No character is a space.
abbrev pub IsToken : Bytes → Type 0
IsToken = All (λ c. is_space c ≡ false)

-- A token that is not empty.
pub record IsWord (w : Bytes) : Type 0 where
  pub nonempty : w ≢ []
  pub token : IsToken w

take_word-append :
    (w : Bytes) (c : ℕ) (rest : Bytes)
    → IsToken w
    → is_space c ≡ true
    → take_word (w ++ c ∷ rest) ≡ (w, c ∷ rest)
unfolding take_word
take_word-append [] c rest t h = ground arith
take_word-append (a ∷ w) c rest t h = ground (arith, take_word-append w c rest)

take_word-all : (w : Bytes) → IsToken w → take_word w ≡ (w, [])
unfolding take_word
take_word-all [] t = refl
take_word-all (a ∷ w) t = ground (arith, take_word-all w)

skip_spaces-word : (w rest : Bytes) → IsWord w → skip_spaces (w ++ rest) ≡ w ++ rest
unfolding skip_spaces
skip_spaces-word [] rest h = absurd (h.nonempty refl)
skip_spaces-word (a ∷ w) rest h = ground (arith, h.token)

pub read_word-space : (c : ℕ) (s : Bytes) → is_space c ≡ true → read_word (c ∷ s) ≡ read_word s
unfolding read_word
read_word-space c s h = ground arith

pub read_word-append :
    (w : Bytes) (c : ℕ) (rest : Bytes)
    → IsWord w
    → is_space c ≡ true
    → read_word (w ++ c ∷ rest) ≡ (w, c ∷ rest)
unfolding read_word
read_word-append w c rest h sp =
    ap take_word (skip_spaces-word w (c ∷ rest) h) ∙ take_word-append w c rest h.token sp

pub read_word-all : (w : Bytes) → IsToken w → read_word w ≡ (w, [])
unfolding read_word
read_word-all [] t = refl
read_word-all (a ∷ w) t = ground (arith, take_word-all (a ∷ w))

pub read_word-end : read_word [] ≡ ([], [])
unfolding read_word
read_word-end = refl

take_word-IsToken : (s : Bytes) → IsToken (take_word s).0
unfolding take_word
take_word-IsToken [] = tt
take_word-IsToken (c ∷ s) = ground (arith, take_word-IsToken s)

-- Whatever the input, the word that is read holds no space.
pub read_word-IsToken : (s : Bytes) → IsToken (read_word s).0
unfolding read_word
read_word-IsToken s = take_word-IsToken (skip_spaces s)

take_word-nothing : (s : Bytes) → (take_word (skip_spaces s)).0 ≡ [] → skip_spaces s ≡ []
unfolding take_word skip_spaces
take_word-nothing [] h = refl
take_word-nothing (c ∷ s) h = elim (Bool-cases (is_space c)) [
  | inl e ↦ rw e (take_word-nothing s (rw e at h))
  | inr e ↦ absurd (ground (arith, e, h))
]

-- Where there is no word, there is none behind it.
pub read_word-nothing : (s : Bytes) → (read_word s).0 ≡ [] → (read_word (read_word s).1).0 ≡ []
unfolding read_word
read_word-nothing s h = rw (take_word-nothing s h)
