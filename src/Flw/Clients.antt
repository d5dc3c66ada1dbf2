-- ===== src/Flw/Clients.antt =====
-- What FLWCons of zk/flw.go returns.
use go_zookeeper.Base.{
  lt→ltb, ◌%◌, ◌≡◌, ◌⊎◌, ◌↔◌, inl, inr, refl, sym, ap, ◌∙◌, ℤ, pos, negsuc, is_neg, uint64,
  uint64-lt, IsInt64, Bytes, true, false, none, some, List, [], ◌∷◌, ◌++◌, append_assoc, append-nil,
  arith, All, if◌then◌else◌, split, Option-cases, ◌^◌, ◌-◌,
}
use go_zookeeper.Constants.{unparsed_response}
use go_zookeeper.Wire.{Slice, contents}
use go_zookeeper.Flw.{ConsMatch, Library, ServerClient, int_value}
use go_zookeeper.Flw.Lines.{Reads, scan_tokens-Reads}
use go_zookeeper.Flw.Hex.{clamp, hex_string, parse_int-hex_string, parse_int64-hex_string}
use go_zookeeper.Flw.Words.{
  client_of, Scanned, scan_tokens, scan_line, scan_lines, cons_response, max_scan_token_size,
}

module _ {T : Type 0} (lib : Library T) where
  -- The clients of the lines that match, in their order.
  unfoldable pub matches : List Bytes → List ServerClient
  matches [] = []
  matches ([] ∷ ls) = matches ls
  matches ((b ∷ l) ∷ ls) =
      let rest = matches ls in
      elim (lib.match_cons (b ∷ l)) [ none ↦ rest | some m ↦ client_of m ∷ rest ]

  -- An empty line, or one that matches.
  abbrev pub Parses : Bytes → Type 0
  Parses l = (l ≡ []) ⊎ ((m : ConsMatch) × (lib.match_cons l ≡ some m))

  scan_lines-clients :
      (ls : List Bytes) (a : Scanned) → (scan_lines lib ls a).clients ≡ a.clients ++ matches ls
  unfolding scan_lines scan_line matches
  scan_lines-clients [] a = sym (append-nil a.clients)
  scan_lines-clients ([] ∷ ls) a = scan_lines-clients ls a
  scan_lines-clients ((b ∷ l) ∷ ls) a = elim (Option-cases (lib.match_cons (b ∷ l))) [
    | inl e ↦
        rw (e, scan_lines, scan_line, matches)
          (scan_lines-clients ls (record a {
            entry = some (record { clients = []; error = some unparsed_response });
            im_ok = false;
          }))
    | inr (m, e) ↦
        rw (e, scan_lines, scan_line, matches)
          (scan_lines-clients ls (record a { clients = a.clients ++ (client_of m ∷ []) })
            ∙ append_assoc a.clients (client_of m ∷ []) (matches ls))
  ]

  scan_lines-ok :
      (ls : List Bytes) (a : Scanned)
      → ((scan_lines lib ls a).im_ok ≡ true) ↔ ((a.im_ok ≡ true) × All Parses ls)
  unfolding scan_lines scan_line
  scan_lines-ok [] a = (λ h. (h, tt), λ h. h.0)
  scan_lines-ok ([] ∷ ls) a =
      let (f, g) = scan_lines-ok ls a in
      (λ h. let (x, y) = f h in (x, (inl refl, y)), λ h. g (h.0, h.1.1))
  scan_lines-ok ((b ∷ l) ∷ ls) a = elim (Option-cases (lib.match_cons (b ∷ l))) [
    | inl e ↦
        let (f, g) = scan_lines-ok ls (record a {
          entry = some (record { clients = []; error = some unparsed_response });
          im_ok = false;
        }) in
        rw (e, scan_lines, scan_line)
          (λ h. let (x, y) = f h in cc, λ h. elim h.1.0 [ inl x ↦ cc | inr (m, x) ↦ cc ])
    | inr (m, e) ↦
        let (f, g) = scan_lines-ok ls (record a { clients = a.clients ++ (client_of m ∷ []) }) in
        rw (e, scan_lines, scan_line)
          (λ h. let (x, y) = f h in (x, (inr (m, refl), y)), λ h. g (h.0, h.1.1))
  ]

  -- A response that is read as lines, each ended by a newline, with or without a carriage return, or by
  -- the text, and shorter than 64 KB, of which a longer one ends the reading: the clients are those of
  -- the lines that match, in their order. The Boolean value is true exactly if every line is empty or
  -- matches, and it alone tells: the field Error is nil all the same. That the reading was ended
  -- shows in neither.
  pub cons_response-clients :
      (s : Slice) (ls : List Bytes)
      → Reads (contents s) ls
      → ((cons_response lib (some s, none)).0.clients ≡ matches ls)
        × (((cons_response lib (some s, none)).1 ≡ true) ↔ All Parses ls)
        × ((cons_response lib (some s, none)).0.error ≡ none)
  unfolding cons_response
  cons_response-clients s ls h =
      let start : Scanned = record { entry = none; clients = []; im_ok = true } in
      let read : scan_tokens max_scan_token_size (split 10 (contents s)) ≡ ls =
        scan_tokens-Reads h in
      let (f, g) = scan_lines-ok ls start in
      (
        ap (λ t. (scan_lines lib t start).clients) read ∙ scan_lines-clients ls start,
        rw (read) (λ k. (f k).1, λ k. g (refl, k)),
        refl,
      )

clamped : (z : ℤ) → IsInt64 z → (clamp (uint64 z)).0 ≡ (if is_neg z then pos (2 ^ 63 - 1) else z)
clamped (pos n) h = rw (lt→ltb (n % 2 ^ 64) (2 ^ 63) (omega arith)) (ap pos (omega arith))
clamped (negsuc n) h = ground arith

-- The identifiers of a client as the server prints them, in hexadecimal as patterns of 64 bits: lcxid and
-- lzxid are read back as they are, and so is a session id of 0 or above, but one below 0 is read as
-- 2 ^ 63 - 1.
pub client_of-ids :
    (m : ConsMatch) (sid cxid zxid : ℤ)
    → IsInt64 sid
    → IsInt64 cxid
    → IsInt64 zxid
    → m.sid ≡ hex_string (uint64 sid)
    → m.lcxid ≡ hex_string (uint64 cxid)
    → m.lzxid ≡ hex_string (uint64 zxid)
    → ((client_of m).lcxid ≡ cxid)
      × ((client_of m).lzxid ≡ zxid)
      × ((client_of m).session_id ≡ (if is_neg sid then pos (2 ^ 63 - 1) else sid))
unfolding client_of int_value
client_of-ids m sid cxid zxid hs hc hz es ec ez = (
  rw (ec, parse_int64-hex_string cxid hc) refl,
  rw (ez, parse_int64-hex_string zxid hz) refl,
  rw (es, parse_int-hex_string (uint64 sid) (uint64-lt sid)) (clamped sid hs),
)
