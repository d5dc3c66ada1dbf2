-- ===== src/Client.antt =====
-- The calls of the client in zk/conn.go as programs over what they wait for: the answer of a
-- request, an event of a watcher, random bytes. What a program does between two waits is computed;
-- the values that it waits for come from outside.
pub mod Calls
pub mod Requests
pub mod Running
pub mod Served
pub mod Watching
pub mod Protected
pub mod Multi
pub mod Operations
use go_zookeeper.Base.{ℕ, ℤ, pos, Bytes, Bool, Option, none, some, List, [], ◌∷◌, ◌++◌}
use go_zookeeper.Constants.{Error}
use go_zookeeper.Wire.{Fault, Result, ok, err, panic}
use go_zookeeper.Wire.Value.{
  MultiHeader, Kind, Kinds, Value, Values, bool, int32, int64, string, bytes, multi, other, slice,
  struct, end, field, nil, cons, no_ops,
}
use go_zookeeper.Watch.{Event}
use go_zookeeper.Conn.{Conn, Request, RecvFunc, Response, AuthCreds, new_request}
use go_zookeeper.Paths.{Utf8, validate_path}

-- `asks` is c.request, `remembers` the append to c.creds under credsMu, `draws` io.ReadFull of sixteen
-- bytes from rand.Reader with its error, `waits` the receive from a watcher's channel.
pub data Call {ℓ} (A : Type ℓ) : Type ℓ where
  returns : A → Call A
  panics : Fault → Call A
  asks : ℤ → Value → Kind → RecvFunc → (Response → Call A) → Call A
  remembers : AuthCreds → Call A → Call A
  draws : (Option Error → Bytes → Call A) → Call A
  waits : Option ℕ → (Event → Call A) → Call A

infixl 5 ◌>>=◌
unfoldable pub ◌>>=◌ {ℓ κ} : {A : Type ℓ} {B : Type κ} → Call A → (A → Call B) → Call B
returns a >>= f = f a
panics p >>= f = panics p
asks o pkt k func rest >>= f = asks o pkt k func (λ r. rest r >>= f)
remembers cred rest >>= f = remembers cred (rest >>= f)
draws rest >>= f = draws (λ e bs. rest e bs >>= f)
waits ch rest >>= f = waits ch (λ ev. rest ev >>= f)

-- What the other goroutines and the server do while the caller waits: from the send on sendChan until
-- the response stands in the request's channel, and until an event stands in a watcher's
-- channel.
pub record World : Type 0 where
  pub exchange : Request → Conn → Conn × Response
  pub random : Conn → Conn × (Option Error × Bytes)
  pub event : Option ℕ → Conn → Conn × Event

unfoldable pub run {ℓ} : {A : Type ℓ} → World → Call A → Conn → Result (Conn × A)
unfolding new_request
run w (returns a) c = ok (c, a)
run w (panics p) c = panic p
run w (asks o pkt k func rest) c =
    let (c', rq) = new_request o pkt k func c in
    let (c'', r) = w.exchange rq c' in run w (rest r) c''
run w (remembers cred rest) c = run w rest (record c { creds = c.creds ++ (cred ∷ []) })
run w (draws rest) c = let (c', (e, bs)) = w.random c in run w (rest e bs) c'
run w (waits ch rest) c = let (c', ev) = w.event ch c in run w (rest ev) c'

-- c.request(opcode, req, res, recvFunc)
abbrev pub request : ℤ → Value → Kind → RecvFunc → Call Response
request opcode pkt k func = asks opcode pkt k func returns

-- if err := validatePath(path, isSequential); err != nil { return ... }
unfoldable pub with_valid {ℓ} : {A : Type ℓ} → Utf8 → Bytes → Bool → (Error → A) → Call A → Call A
with_valid u path is_sequential refused next = elim (validate_path u path is_sequential) [
  | ok t ↦ next
  | err e ↦ returns (refused e)
  | panic p ↦ panics p
]

-- The struct that `res` points to before the decoder fills it in.
abbrev mutual
  pub zero_value : Kind → Value
  zero_value bool = bool Bool.false
  zero_value int32 = int32 (pos 0)
  zero_value int64 = int64 (pos 0)
  zero_value string = string []
  zero_value bytes = bytes none
  zero_value multi = multi no_ops (record { op_type = pos 0; done = Bool.false; err_code = pos 0 })
  zero_value other = other
  zero_value (slice k) = slice nil
  zero_value (struct ks) = struct (zero_fields ks)

  pub zero_fields : Kinds → Values
  zero_fields end = nil
  zero_fields (field k ks) = cons (zero_value k) (zero_fields ks)
