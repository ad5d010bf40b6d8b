-- ===== src/Loader/ErrorText/Bounds.antt =====
-- The error text stays in its buffer and is a NUL-terminated prefix of the message.
use coakka_runtime_swift.Prelude.{
  ℕ, zero, suc, ◌-◌, ◌≤◌, ◌<◌, Option, some, List, [], ◌∷◌, ◌++◌, ◌≡◌, refl, ap, min, length, take,
  drop, arith,
}
use coakka_runtime_swift.Loader.ErrorText.{write_text, text_of, set_error}

min-suc : (a b : ℕ) → min (suc a) (suc b) ≡ suc (min a b)
min-suc a b = omega arith

min-zero : (a : ℕ) → (min zero a ≡ 0) × (min a zero ≡ 0)
min-zero a = (omega arith, omega arith)

pub length-write_text : (n : ℕ) (text buf : List ℕ) → length (write_text n text buf) ≡ length buf
unfolding write_text
length-write_text n text [] = refl
length-write_text zero text (b ∷ bs) = refl
length-write_text (suc n) [] (b ∷ bs) = refl
length-write_text (suc n) (t ∷ ts) (b ∷ bs) = ap suc (length-write_text n ts bs)

-- The description of the written buffer by its parts.
write_text_parts :
    (n : ℕ) (text buf : List ℕ)
    → n < length buf
    → write_text n text buf ≡ take n text ++ 0 ∷ drop (suc (min n (length text))) buf
unfolding write_text
write_text_parts n text [] h = absurd (omega arith)
write_text_parts zero text (b ∷ bs) h = rw ((min-zero (length text)).0)
write_text_parts (suc n) [] (b ∷ bs) h = rw ((min-zero (suc n)).1)
write_text_parts (suc n) (t ∷ ts) (b ∷ bs) h =
    rw (min-suc n (length ts)) (ap (λ (l : List ℕ). t ∷ l) (write_text_parts n ts bs (omega arith)))

pub write_text_beyond :
    (n : ℕ) (text buf : List ℕ) → drop (suc n) (write_text n text buf) ≡ drop (suc n) buf
unfolding write_text
write_text_beyond n text [] = refl
write_text_beyond zero text (b ∷ bs) = refl
write_text_beyond (suc n) [] (b ∷ bs) = refl
write_text_beyond (suc n) (t ∷ ts) (b ∷ bs) = write_text_beyond n ts bs

-- With a buffer of at least len bytes, len not 0: set_error keeps the buffer's length, changes no
-- byte from len on, and leaves the prefix and the value, NULL read as no text, cut to len - 1
-- bytes, then the 0 byte, then what was there before.
pub set_error_bounds :
    (buf : List ℕ) (len : ℕ) (prefix value : Option (List ℕ))
    → 0 < len
    → len ≤ length buf
    → (result : List ℕ) × (set_error (some buf) len prefix value ≡ some result)
      × (length result ≡ length buf)
      × (drop len result ≡ drop len buf)
      × (result
          ≡ take (len - 1) (text_of prefix ++ text_of value)
            ++ 0 ∷ drop (suc (min (len - 1) (length (text_of prefix ++ text_of value)))) buf)
unfolding set_error
set_error_bounds buf zero prefix value pos fits = absurd (omega arith)
set_error_bounds buf (suc n) prefix value pos fits =
    let text = text_of prefix ++ text_of value in
    rw pred_suc (
      write_text n text buf,
      refl,
      length-write_text n text buf,
      write_text_beyond n text buf,
      write_text_parts n text buf fits,
    )
  where
    pred_suc : suc n - 1 ≡ n
    pred_suc = omega arith
