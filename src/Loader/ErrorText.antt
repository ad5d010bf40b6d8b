-- ===== src/Loader/ErrorText.antt =====
-- set_error of coakka_runtime_bridge.c.
pub mod Bounds
use coakka_runtime_swift.Prelude.{
  ℕ, zero, suc, ◌-◌, ◌+◌, Option, none, some, List, [], ◌∷◌, ◌++◌, min, length, take, drop,
}

-- The bytes that snprintf writes: the text while there is room, then a NUL. It writes nothing past
-- the end of the buffer.
unfoldable pub write_text : ℕ → List ℕ → List ℕ → List ℕ
write_text room text [] = []
write_text zero text (b ∷ bs) = 0 ∷ bs
write_text (suc room) [] (b ∷ bs) = 0 ∷ bs
write_text (suc room) (t ∷ ts) (b ∷ bs) = t ∷ write_text room ts bs

-- value == NULL ? "" : value
unfoldable pub text_of : Option (List ℕ) → List ℕ
text_of none = []
text_of (some t) = t

-- snprintf(buf, len, "%s%s", prefix, value) of a buffer that is there and not empty.
unfoldable pub set_error : Option (List ℕ) → ℕ → Option (List ℕ) → Option (List ℕ) → Option (List ℕ)
unfolding write_text text_of
set_error none len prefix value = none
set_error (some buf) zero prefix value = some buf
set_error (some buf) (suc n) prefix value =
    some (write_text n (text_of prefix ++ text_of value) buf)
