-- ===== src/Flw/Lines.antt =====
-- The lines that FLWCons of zk/flw.go reads from a response, and how bufio.Scanner finds them.
use go_zookeeper.Base.{
  suc, zero, ℕ, ◌<◌, ◌≤◌, ◌≡◌, ◌⊎◌, ◌==◌, inl, inr, refl, ap, ◌∙◌, Bytes, Bool, false, List, [],
  ◌∷◌, ◌++◌, All, arith, length, take, ltb, lt→ltb, split, upto, others,
}
use go_zookeeper.Flw.Words.{drop_return, scan_tokens}

abbrev ends_in : ℕ → Bytes → Bool
ends_in c [] = false
ends_in c (b ∷ []) = b == c
ends_in c (b ∷ d ∷ r) = ends_in c (d ∷ r)

-- `b` is the line `l`, perhaps with a carriage return behind it.
abbrev pub Strips : Bytes → Bytes → Type 0
Strips l b = (b ≡ l ++ (13 ∷ [])) ⊎ ((b ≡ l) × (ends_in 13 l ≡ false))

abbrev pub NoNewline : Bytes → Type 0
NoNewline = All (λ b. (b == 10) ≡ false)

-- The text is read as the lines: each ends with a newline or with the text, and is shorter than 64 KB; a
-- longer one ends the reading, with what follows it.
pub data Reads : Bytes → List Bytes → Type 0 where
  last_line : (l b : Bytes) → Strips l b → NoNewline b → length b < 65536 → Reads b (l ∷ [])
  next_line :
      (l b : Bytes) {r : Bytes} {ls : List Bytes}
      → Strips l b
      → NoNewline b
      → length b < 65536
      → Reads r ls
      → Reads (b ++ (10 ∷ r)) (l ∷ ls)
  too_long : (t : Bytes) → NoNewline (take 65536 t) → 65536 ≤ length t → Reads t []

drop_return-keeps : (l : Bytes) → ends_in 13 l ≡ false → drop_return l ≡ l
unfolding drop_return
drop_return-keeps [] h = refl
drop_return-keeps (b ∷ []) h = rw (h) refl
drop_return-keeps (b ∷ c ∷ r) h = ap (λ t. b ∷ t) (drop_return-keeps (c ∷ r) h)

drop_return-drops : (l : Bytes) → drop_return (l ++ (13 ∷ [])) ≡ l
unfolding drop_return
drop_return-drops [] = refl
drop_return-drops (b ∷ []) = refl
drop_return-drops (b ∷ c ∷ r) = ap (λ t. b ∷ t) (drop_return-drops (c ∷ r))

drop_return-Strips : (l b : Bytes) → Strips l b → drop_return b ≡ l
drop_return-Strips l b (inl e) = ap drop_return e ∙ drop_return-drops l
drop_return-Strips l b (inr (e, h)) = ap drop_return e ∙ drop_return-keeps l h

split-last : (b : Bytes) → NoNewline b → split 10 b ≡ b ∷ []
split-last [] h = refl
split-last (c ∷ b) h =
    let rest = split-last b h.1 in
    let first : upto 10 b ≡ b = cc in
    let none_left : others 10 b ≡ [] = cc in rw (h.0, first, none_left) refl

split-next : (b r : Bytes) → NoNewline b → split 10 (b ++ (10 ∷ r)) ≡ b ∷ split 10 r
split-next [] r h = refl
split-next (c ∷ b) r h =
    let rest = split-next b r h.1 in
    let first : upto 10 (b ++ (10 ∷ r)) ≡ b = cc in
    let left : others 10 (b ++ (10 ∷ r)) ≡ split 10 r = cc in rw (h.0, first, left) refl

length-upto : (n : ℕ) (t : Bytes) → NoNewline (take n t) → n ≤ length t → n ≤ length (upto 10 t)
length-upto zero t h k = omega arith
length-upto (suc n) [] h k = omega arith
length-upto (suc n) (c ∷ t) h k =
    let rest = length-upto n t h.1 (omega (arith, k)) in rw (h.0) (omega (arith, rest))

not_shorter : (n m : ℕ) → m ≤ n → ltb n m ≡ false
not_shorter n m h = ground arith

scan_tokens-line :
    (l b : Bytes) (bs : List Bytes)
    → Strips l b
    → length b < 65536
    → scan_tokens 65536 (b ∷ bs) ≡ l ∷ scan_tokens 65536 bs
unfolding scan_tokens
scan_tokens-line l b bs s k =
    rw (lt→ltb (length b) 65536 k) (ap (λ t. t ∷ scan_tokens 65536 bs) (drop_return-Strips l b s))

-- The scanner finds the lines as they are read.
pub scan_tokens-Reads :
    {t : Bytes} {ls : List Bytes} → Reads t ls → scan_tokens 65536 (split 10 t) ≡ ls
scan_tokens-Reads (last_line l b s h k) =
    ap (scan_tokens 65536) (split-last b h)
    ∙ scan_tokens-line l b [] s k
    ∙ (unfold scan_tokens in refl)
scan_tokens-Reads (next_line l b {r} {ls} s h k i) =
    ap (scan_tokens 65536) (split-next b r h)
    ∙ scan_tokens-line l b (split 10 r) s k
    ∙ ap (λ t. l ∷ t) (scan_tokens-Reads i)
scan_tokens-Reads (too_long t h k) =
    let over = not_shorter (length (upto 10 t)) 65536 (length-upto 65536 t h k) in
    unfold scan_tokens in rw (over) refl
