-- ===== src/Base/Memory.antt =====
-- Byte buffers of C as lists: writes at an offset, as `dest[o] = b` and `memcpy (dest + o, src, n)`.
use Prim.Native.Nat.{ℕ, suc, ◌+◌, ◌-◌, ◌≤◌}
use mathlib.Core.Path.{◌≡◌, refl, ap, ◌∙◌, sym}
use mathlib.Core.List.{List, [], ◌∷◌, ◌++◌, append_assoc, append-nil}
use native.Mathlib.Omega.{arith}
use libsmp.Base.Lists.{
  length, set, take, drop, length-append, length-set, length-take, length-drop, set-append,
  drop-append, drop-drop, take-append-drop,
}

-- The bytes `bs`, stored from index `o` on. What lies outside the buffer is not stored.
unfoldable pub write : List ℕ → ℕ → List ℕ → List ℕ
write buf o [] = buf
write buf o (b ∷ bs) = write (set buf o b) (o + 1) bs

pub length-write : (buf : List ℕ) (o : ℕ) (bs : List ℕ) → length (write buf o bs) ≡ length buf
unfolding write
length-write buf o [] = refl
length-write buf o (b ∷ bs) = length-write (set buf o b) (o + 1) bs ∙ length-set buf o b

length-snoc : (xs : List ℕ) (b : ℕ) → length (xs ++ (b ∷ [])) ≡ length xs + 1
length-snoc xs b = omega (arith, length-append {0} xs (b ∷ []))

-- Writing just behind the prefix `xs`, where the rest has room, puts the bytes there and takes as
-- many bytes off the rest.
pub write-append :
    (xs bs rest : List ℕ)
    → length bs ≤ length rest
    → write (xs ++ rest) (length xs) bs ≡ (xs ++ bs) ++ drop (length bs) rest
unfolding write
write-append xs [] rest h = rw append-nil
write-append xs (b ∷ bs) [] h = absurd (omega arith)
write-append xs (b ∷ bs) (r ∷ rest) h =
    ap (λ t. write t (length xs + 1) bs) (set-append xs r rest b ∙ snoc rest)
    ∙ ap (λ k. write ((xs ++ (b ∷ [])) ++ rest) k bs) (sym (length-snoc xs b))
    ∙ write-append (xs ++ (b ∷ [])) bs rest (omega arith)
    ∙ ap (λ t. t ++ drop (length bs) rest) (append_assoc xs (b ∷ []) bs)
  where
    snoc : (t : List ℕ) → xs ++ (b ∷ t) ≡ (xs ++ (b ∷ [])) ++ t
    snoc t = sym (append_assoc xs (b ∷ []) t)

-- Writing one run after the other is writing both.
pub write-write :
    (buf : List ℕ) (o : ℕ) (bs cs : List ℕ)
    → write (write buf o bs) (o + length bs) cs ≡ write buf o (bs ++ cs)
unfolding write
write-write buf o [] cs = ap (λ k. write buf k cs) (omega arith)
write-write buf o (b ∷ bs) cs = rw shift (write-write (set buf o b) (o + 1) bs cs)
  where
    shift : o + suc (length bs) ≡ o + 1 + length bs
    shift = omega arith

-- Three runs written out of order: the first four bytes, what follows the first eight, and the four
-- bytes between.
pub write_header :
    (buffer a b c : List ℕ)
    → length a ≡ 4
    → length b ≡ 4
    → 8 + length c ≤ length buffer
    → write (write (write buffer 0 a) 8 c) 4 b ≡ (a ++ (b ++ c)) ++ drop (8 + length c) buffer
write_header buffer a b c ea eb room =
    ap (λ t. write (write t 8 c) 4 b) first
    ∙ ap (λ k. write (write ((a ++ x) ++ r) k c) 4 b) (sym length-ax)
    ∙ ap (λ t. write t 4 b) (write-append (a ++ x) c r (omega (arith, length-r)))
    ∙ ap (λ t. write t 4 b)
        (ap (λ t. t ++ tail) (append_assoc a x c) ∙ append_assoc a (x ++ c) tail)
    ∙ ap (λ k. write (a ++ ((x ++ c) ++ tail)) k b) (sym ea)
    ∙ write-append a b ((x ++ c) ++ tail)
        (omega (arith, length-x, length-append {0} (x ++ c) tail, length-append {0} x c))
    ∙ ap (λ t. (a ++ b) ++ t)
        (ap (λ t. drop (length b) t) (append_assoc x c tail)
          ∙ ap (λ k. drop k (x ++ (c ++ tail))) (eb ∙ sym length-x)
          ∙ drop-append x (c ++ tail))
    ∙ sym (append_assoc (a ++ b) c tail)
    ∙ ap (λ t. t ++ tail) (append_assoc a b c)
    ∙ ap (λ t. (a ++ (b ++ c)) ++ t) rest
  where
    x : List ℕ
    x = take 4 (drop 4 buffer)

    r : List ℕ
    r = drop 4 (drop 4 buffer)

    tail : List ℕ
    tail = drop (length c) r

    length-x : length x ≡ 4
    length-x = omega (arith, length-take {0} 4 (drop 4 buffer), length-drop {0} 4 buffer)

    length-r : length r ≡ length buffer - 8
    length-r = omega (arith, length-drop {0} 4 (drop 4 buffer), length-drop {0} 4 buffer)

    length-ax : length (a ++ x) ≡ 8
    length-ax = omega (arith, length-append {0} a x, ea, length-x)

    first : write buffer 0 a ≡ (a ++ x) ++ r
    first =
        write-append [] a buffer (omega arith)
        ∙ ap (λ k. a ++ drop k buffer) ea
        ∙ ap (λ t. a ++ t) (sym (take-append-drop 4 (drop 4 buffer)))
        ∙ sym (append_assoc a x r)

    rest : tail ≡ drop (8 + length c) buffer
    rest =
        ap (drop (length c)) (drop-drop 4 4 8 buffer (omega arith))
        ∙ drop-drop (length c) 8 (8 + length c) buffer refl
