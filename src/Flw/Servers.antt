-- ===== src/Flw/Servers.antt =====
-- What FLWSrvr of zk/flw.go returns.
use go_zookeeper.Base.{
  lt→ltb, suc, Bool-cases, ℕ, ◌+◌, ◌*◌, ◌/◌, ◌%◌, ◌^◌, ◌<◌, ◌≡◌, ◌⊎◌, ◌↔◌, inl, inr, refl, ap, ◌∙◌,
  ℤ, pos, uint32, to_int32, Bytes, Bool, true, false, ◌&&◌, Option, none, some, List, [], ◌∷◌,
  arith, length, All, ltb, str,
}
use go_zookeeper.Constants.{Error, unparsed_response}
use go_zookeeper.Wire.{Slice, contents}
use go_zookeeper.Hosts.{format_servers}
use go_zookeeper.Flw.{
  four_letter_word, SrvrMatch, Library, ServerStats, failed_stats, epoch_of, counter_of,
}
use go_zookeeper.Flw.Numbers.{parse_int}
use go_zookeeper.Flw.Hex.{hex_string, parse_int-hex_string}
use go_zookeeper.Flw.Words.{stats_of, srvr_response, srvr_all, flw_srvr, slice_of}

uint32-to_int32 : (w : ℕ) → w < 2 ^ 32 → uint32 (to_int32 w) ≡ w
uint32-to_int32 w h = elim (Bool-cases (ltb (w % 2 ^ 32) (2 ^ 31))) [
  | inl e ↦ rw e (omega arith)
  | inr e ↦ rw e (ground arith)
]

epoch-counter :
    (n : ℕ) → n < 2 ^ 63 → uint32 (epoch_of (pos n)) * 2 ^ 32 + uint32 (counter_of (pos n)) ≡ n
unfolding epoch_of counter_of
epoch-counter n h =
    rw
      (
        uint32-to_int32 (n % 2 ^ 64 / 2 ^ 32) (omega arith),
        uint32-to_int32 (n % 2 ^ 64 % 2 ^ 32) (omega arith),
      )
      (omega arith)

abbrev pub IsDone : {T : Type 0} → ServerStats T × Bool → Type 0
IsDone r = (r.1 ≡ true) ↔ (r.0.error ≡ none)

failed-IsDone : (T : Type 0) (e : Error) → IsDone {T = T} (failed_stats e, false)
unfolding failed_stats
failed-IsDone T e = (λ h. cc, λ h. cc)

stats_of-IsDone :
    {T : Type 0} (m : SrvrMatch) (t : Error ⊎ T) (z : ℤ × Option Error) → IsDone (stats_of m t z)
unfolding stats_of
stats_of-IsDone {T} m (inl e) z = failed-IsDone T e
stats_of-IsDone {T} m (inr t) (z, some e) = failed-IsDone T e
stats_of-IsDone {T} m (inr t) (z, none) = (λ h. refl, λ h. refl)

both : (a b : Bool) → (a && b) ≡ true → (a ≡ true) × (b ≡ true)
both true b e = (refl, e)
both false b e = cc

length-format_servers : (ss : List Bytes) → length (format_servers ss) ≡ length ss
unfolding format_servers
length-format_servers [] = refl
length-format_servers (s ∷ ss) = ap suc (length-format_servers ss)

module _ {T : Type 0} (lib : Library T) where
  matched-IsDone :
      (r : Option Slice) (o : Option SrvrMatch)
      → lib.match_srvr (contents (slice_of r)) ≡ o
      → IsDone (srvr_response lib (r, none))
  unfolding srvr_response
  matched-IsDone r none e = rw (e, srvr_response) (failed-IsDone T unparsed_response)
  matched-IsDone r (some m) e =
      rw (e, srvr_response) (stats_of-IsDone m (lib.parse_time m.built) (parse_int 64 m.zxid))

  response-IsDone : (p : Option Slice × Option Error) → IsDone (srvr_response lib p)
  unfolding srvr_response
  response-IsDone (r, some e) = failed-IsDone T e
  response-IsDone (r, none) = matched-IsDone r (lib.match_srvr (contents (slice_of r))) refl

  srvr_all-IsDone :
      (ss : List Bytes)
      → (length (srvr_all lib ss).0 ≡ length ss)
        × (((srvr_all lib ss).1 ≡ true) ↔ All (λ s. s.error ≡ none) (srvr_all lib ss).0)
  unfolding srvr_all
  srvr_all-IsDone [] = (refl, (λ h. tt, λ h. refl))
  srvr_all-IsDone (s ∷ ss) =
      let r = srvr_response lib (four_letter_word (lib.fetch s (str "srvr"))) in
      let (f, g) = response-IsDone (four_letter_word (lib.fetch s (str "srvr"))) in
      let (n, (h, k)) = srvr_all-IsDone ss in
      (
        ap suc n,
        (
          λ e. let (x, y) = both r.1 (srvr_all lib ss).1 e in (f x, h y),
          λ e. rw (g e.0, k e.1) refl,
        ),
      )

  -- FLWSrvr returns one struct for each server, and true exactly when no struct has an error.
  pub flw_srvr-IsDone :
      (servers : List Bytes)
      → (length (flw_srvr lib servers).0 ≡ length servers)
        × (((flw_srvr lib servers).1 ≡ true) ↔ All (λ s. s.error ≡ none) (flw_srvr lib servers).0)
  unfolding flw_srvr
  flw_srvr-IsDone servers =
      let (n, d) = srvr_all-IsDone (format_servers servers) in
      (n ∙ length-format_servers servers, d)

  -- Where the response matches and its time can be read, the epoch and the counter are the two halves of
  -- the zxid that the server printed in hexadecimal, if this is below 2 ^ 63, and the struct has no
  -- error.
  pub srvr_response-zxid :
      (s : Slice) (m : SrvrMatch) (t : T) (n : ℕ)
      → lib.match_srvr (contents s) ≡ some m
      → lib.parse_time m.built ≡ inr t
      → m.zxid ≡ hex_string n
      → n < 2 ^ 63
      → let r = srvr_response lib (some s, none) in
        (r.1 ≡ true) × (r.0.error ≡ none) × (uint32 r.0.epoch * 2 ^ 32 + uint32 r.0.counter ≡ n)
  unfolding srvr_response stats_of
  srvr_response-zxid s m t n em et ez h =
      rw (em, srvr_response)
        (rw (et, ez, parse_int-hex_string n (omega arith), lt→ltb n (2 ^ 63) h)
          (refl, refl, epoch-counter n h))
