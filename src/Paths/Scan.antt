-- ===== src/Paths/Scan.antt =====
-- validatePath of zk/util.go on ASCII paths: the loop over positions is a recursion over the bytes.
use mathlib.Core.List.{reverse, reverse-cons}
use go_zookeeper.Base.{
  ℕ, zero, suc, ◌+◌, ◌-◌, ◌≤◌, ◌≡◌, refl, ap, subst, Bytes, Bool, true, false, not, ◌&&◌, ◌||◌,
  ◌==◌, ltb, if◌then◌else◌, [], ◌∷◌, ◌++◌, length, arith, length-append, Bool-cases, inl, inr,
}
use go_zookeeper.Wire.{ok}
use go_zookeeper.Paths.{
  Utf8, is_forbidden, check_slash, rune_before, check_next, check_dot, check_rune, check_runes,
  byte_at, validate_path,
}
use go_zookeeper.Paths.Ascii.{
  ReadsAscii, IsAscii, verdict, newest, newest_past_dot, is_end, is_nil, is_fine, scan,
  length-reverse, ends_in_slash, byte_at-last, text_to_lem, text_from_lem, past, reject, by_end,
}

module _ (u : Utf8) (au : ReadsAscii u) where
  last_rune-newest : (back : Bytes) → IsAscii back → (u.last_rune (reverse back)).0 ≡ newest back
  last_rune-newest [] h = ap (λ p. p.0) au.no_last
  last_rune-newest (c ∷ back) h =
      rw (reverse-cons c back) (ap (λ p. p.0) (au.last_byte (reverse back) c h.0))

  check_slash_lem :
      (back rest : Bytes)
      → IsAscii back
      → check_slash u (reverse back ++ rest) (length back) ≡ verdict (not (newest back == b'/'))
  unfolding check_slash
  check_slash_lem back rest h =
      rw (text_to_lem back rest, last_rune-newest back h) (reject (newest back == b'/'))

  rune_before_lem :
      (back rest : Bytes)
      → IsAscii back
      → rune_before u (reverse back ++ rest) (length back) ≡ ok (newest_past_dot back)
  unfolding rune_before
  rune_before_lem [] rest h = rw (text_to_lem [] rest, au.no_last)
  rune_before_lem (c ∷ back) rest h =
      let width : u.last_rune (reverse (c ∷ back)) ≡ (c, 1) =
        rw (reverse-cons c back) (au.last_byte (reverse back) c h.0) in
      let less : suc (length back) - 1 ≡ length back = omega arith in
      rw
        (
          text_to_lem (c ∷ back) rest,
          width,
          less,
          past c back rest,
          text_to_lem back (c ∷ rest),
          last_rune-newest back h.1,
        )
        (ground arith)

  -- After a '.' at the front of `rest`.
  check_next_lem :
      (w : ℕ) (back r : Bytes)
      → w ≤ 1
      → IsAscii r
      → check_next u (reverse back ++ (b'.' ∷ r)) (length back) w
        ≡ verdict (not (if w == 0 then is_nil r else is_end r))
  unfolding check_next
  check_next_lem w back [] hw h =
      let size : (length back + 1 == length (reverse back ++ (b'.' ∷ []))) ≡ true =
        ground (arith, length-append (reverse back) (b'.' ∷ []), length-reverse back) in
      rw size (ground arith)
  check_next_lem zero back (c ∷ r) hw h =
      let size : (length back + 1 == length (reverse back ++ (b'.' ∷ c ∷ r))) ≡ false =
        ground (arith, length-append (reverse back) (b'.' ∷ c ∷ r), length-reverse back) in
      rw (
        size,
        text_from_lem back (b'.' ∷ c ∷ r) (length back + 0) (omega arith),
        au.first_byte b'.' (c ∷ r) (omega arith),
      )
  check_next_lem (suc zero) back (c ∷ r) hw h =
      let size : (length back + 1 == length (reverse back ++ (b'.' ∷ c ∷ r))) ≡ false =
        ground (arith, length-append (reverse back) (b'.' ∷ c ∷ r), length-reverse back) in
      rw
        (
          size,
          ← past b'.' back (c ∷ r),
          text_from_lem (b'.' ∷ back) (c ∷ r) (length back + 1) (omega arith),
          au.first_byte c r h.0,
        )
        (reject (c == b'/'))
  check_next_lem (suc (suc w)) back (c ∷ r) hw h = absurd (omega arith)

  check_dot_lem :
      (w : ℕ) (back r : Bytes)
      → w ≤ 1
      → IsAscii back
      → IsAscii r
      → check_dot u (reverse back ++ (b'.' ∷ r)) (length back) w
        ≡ verdict (not (newest_past_dot back == b'/' && (if w == 0 then is_nil r else is_end r)))
  unfolding check_dot
  check_dot_lem w back r hw hb hr =
      rw (rune_before_lem back (b'.' ∷ r) hb) (elim (Bool-cases (newest_past_dot back == b'/')) [
        | inl e ↦ rw (e) (check_next_lem w back r hw hr)
        | inr e ↦ rw (e)
      ])

  check_rune_lem :
      (w : ℕ) (back : Bytes) (b : ℕ) (r : Bytes)
      → w ≤ 1
      → IsAscii back
      → IsAscii r
      → check_rune u (reverse back ++ (b ∷ r)) (length back) w b ≡ verdict (is_fine w back b r)
  unfolding check_rune
  check_rune_lem w back b r hw hb hr = elim (Bool-cases (b == 0)) [
    | inl e ↦ rw (e)
    | inr e ↦ rw (e) (elim (Bool-cases (b == b'/')) [
      | inl f ↦ rw (f) (check_slash_lem back (b ∷ r) hb)
      | inr f ↦ rw (f) (elim (Bool-cases (b == b'.')) [
        | inl g ↦
            let dot : b ≡ b'.' = ground (arith, g) in rw (dot) (check_dot_lem w back r hw hb hr)
        | inr g ↦ rw (g) (reject (is_forbidden b))
      ])
    ])
  ]

  -- The loop, with enough rounds, is the recursion over the bytes.
  pub check_runes-scan :
      (w : ℕ) (back rest : Bytes) (fuel : ℕ)
      → w ≤ 1
      → IsAscii back
      → IsAscii rest
      → length rest ≤ fuel
      → check_runes u (reverse back ++ rest) fuel (length back) w ≡ verdict (scan w back rest)
  unfolding check_runes scan
  check_runes-scan w back [] zero hw hb hr hf =
      let at_end : ltb (length back) (length (reverse back ++ [])) ≡ false =
        ground (arith, length-append (reverse back) [], length-reverse back) in
      rw (at_end)
  check_runes-scan w back [] (suc fuel) hw hb hr hf =
      let at_end : ltb (length back) (length (reverse back ++ [])) ≡ false =
        ground (arith, length-append (reverse back) [], length-reverse back) in
      rw (check_runes, at_end)
  check_runes-scan w back (b ∷ r) zero hw hb hr hf = absurd (omega arith)
  check_runes-scan w back (b ∷ r) (suc fuel) hw hb hr hf =
      let more : ltb (length back) (length (reverse back ++ (b ∷ r))) ≡ true =
        ground (arith, length-append (reverse back) (b ∷ r), length-reverse back) in
      let step : length back + 1 ≡ suc (length back) = omega arith in
      let ih = check_runes-scan 1 (b ∷ back) r fuel (omega arith) (hr.0, hb) hr.1 (omega arith) in
      rw
        (
          check_runes,
          more,
          text_from_lem back (b ∷ r) (length back) refl,
          au.first_byte b r hr.0,
          check_rune_lem w back b r hw hb hr.1,
        )
        (elim (Bool-cases (is_fine w back b r)) [
          | inl e ↦
              rw (e, step)
                (subst
                  (λ p. check_runes u p fuel (suc (length back)) 1 ≡ verdict (scan 1 (b ∷ back) r))
                  (past b back r) ih)
          | inr e ↦ rw (e)
        ])

  -- The whole of validatePath on an ASCII path that starts with a '/'.
  pub validate_path-scan :
      (rest : Bytes) (is_sequential : Bool)
      → IsAscii rest
      → validate_path u (b'/' ∷ rest) is_sequential
        ≡ verdict ((is_sequential || not (ends_in_slash rest)) && scan 0 (b'/' ∷ []) rest)
  unfolding validate_path byte_at
  validate_path-scan [] false h = unfold scan in refl
  validate_path-scan [] true h = unfold scan in refl
  validate_path-scan (c ∷ r) is_sequential h =
      let (b, last, slash) = byte_at-last b'/' c r in
      let before_last : suc (suc (length r)) - 1 ≡ suc (length r) = omega arith in
      let some_bytes : (suc (suc (length r)) == 0) ≡ false = ground arith in
      let more : (suc (suc (length r)) == 1) ≡ false = ground arith in
      let loop =
        check_runes-scan 0 (b'/' ∷ []) (c ∷ r) (suc (suc (length r))) (omega arith) (omega arith) h
          (omega arith) in
      rw (some_bytes, more, before_last, last, slash)
        (by_end _ _ is_sequential (ends_in_slash (c ∷ r)) loop)
