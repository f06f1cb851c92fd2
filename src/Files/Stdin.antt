-- ===== src/Files/Stdin.antt =====
-- readStdin of .wolf/hooks/shared.js: the events that arrive, in their order, until one of them
-- resolves the promise. The decoding of bytes as UTF-8 is the host's.
use efipix.Prelude.{
  ℕ, Bool, true, false, Option, none, some, List, [], ◌∷◌, ◌++◌, map, any, ◌≡◌, refl, sym, ap, ◌∙◌,
  append_assoc, append-nil,
}
use efipix.Text.{Text, codes}

abbrev pub Bytes : Type 0
Bytes = List ℕ

-- "data", "end", and the timer of four seconds
pub data Arrival : Type 0 where
  chunk : Bytes → Arrival
  ended timed_out : Arrival

-- `Buffer.concat(chunks)`
abbrev pub concat : List Bytes → Bytes
concat [] = []
concat (b ∷ bs) = b ++ concat bs

-- `chunks.length ? … : "{}"`
abbrev pub so_far : (Bytes → Text) → List Bytes → Text
so_far decode [] = codes "{}"
so_far decode (b ∷ bs) = decode (concat (b ∷ bs))

-- What the promise resolves to, with the chunks so far: `none` while it waits. A promise that is
-- resolved stays so, whatever arrives later.
unfoldable pub listen : (Bytes → Text) → List Bytes → List Arrival → Option Text
listen decode chunks [] = none
listen decode chunks (chunk b ∷ es) = listen decode (chunks ++ b ∷ []) es
listen decode chunks (ended ∷ es) = some (decode (concat chunks))
listen decode chunks (timed_out ∷ es) = some (so_far decode chunks)

abbrev pub read_stdin : (Bytes → Text) → List Arrival → Option Text
read_stdin decode es = listen decode [] es

abbrev pub resolves : Arrival → Bool
resolves (chunk b) = false
resolves ended = true
resolves timed_out = true

false-ne-true : false ≡ true → ⊥
false-ne-true e = cc

listen-settles :
    (decode : Bytes → Text) (chunks : List Bytes) (es fs : List Arrival)
    → any resolves es ≡ true
    → (t : Text) × (listen decode chunks es ≡ some t) × (listen decode chunks (es ++ fs) ≡ some t)
unfolding listen
listen-settles decode chunks [] fs h = absurd (false-ne-true h)
listen-settles decode chunks (chunk b ∷ es) fs h = listen-settles decode (chunks ++ b ∷ []) es fs h
listen-settles decode chunks (ended ∷ es) fs h = (_, refl, refl)
listen-settles decode chunks (timed_out ∷ es) fs h = (_, refl, refl)

-- Once the end of the input or the timer has arrived, the text is there, and what arrives later, another
-- chunk or the timer, does not change it.
pub read_stdin-settles :
    (decode : Bytes → Text) (es fs : List Arrival)
    → any resolves es ≡ true
    → (t : Text) × (read_stdin decode es ≡ some t) × (read_stdin decode (es ++ fs) ≡ some t)
read_stdin-settles decode es fs h = listen-settles decode [] es fs h

concat-append : (xs bs : List Bytes) → concat (xs ++ bs) ≡ concat xs ++ concat bs
concat-append [] bs = refl
concat-append (a ∷ xs) bs =
    ap (λ l. a ++ l) (concat-append xs bs) ∙ sym (append_assoc a (concat xs) (concat bs))

listen-concat :
    (decode : Bytes → Text) (chunks bs : List Bytes) (fs : List Arrival)
    → listen decode chunks (map chunk bs ++ ended ∷ fs) ≡ some (decode (concat chunks ++ concat bs))
unfolding listen
listen-concat decode chunks [] fs = ap (λ l. some (decode l)) (sym (append-nil (concat chunks)))
listen-concat decode chunks (b ∷ bs) fs =
    listen-concat decode (chunks ++ b ∷ []) bs fs
    ∙ ap (λ l. some (decode l))
        (ap (λ l. l ++ concat bs)
            (concat-append chunks (b ∷ []) ∙ ap (λ l. concat chunks ++ l) (append-nil b))
          ∙ append_assoc (concat chunks) b (concat bs))

-- Input that ends before the timer is decoded as a whole: the text is that of all bytes, wherever the
-- host has cut them into chunks, be it within a character.
pub read_stdin-whole :
    (decode : Bytes → Text) (bs : List Bytes) (fs : List Arrival)
    → read_stdin decode (map chunk bs ++ ended ∷ fs) ≡ some (decode (concat bs))
read_stdin-whole decode bs fs = listen-concat decode [] bs fs
