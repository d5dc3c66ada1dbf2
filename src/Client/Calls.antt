-- ===== src/Client/Calls.antt =====
-- AddAuth, Children, Get, Set, Create, Delete, Exists, their watching forms, GetACL, SetACL, Sync and the two
-- forms of Reconfig in zk/conn.go. A Stat is the value of its struct.
use go_zookeeper.Base.{
  ℕ, zero, suc, ◌/◌, ◌%◌, ℤ, pos, uint32, Bytes, Bool, true, false, ◌==◌, Option, none, some, List,
  [], ◌∷◌, ◌++◌, join, str,
}
use go_zookeeper.Constants.{
  Error, no_node, op_create, op_delete, op_exists, op_get_data, op_set_data, op_get_acl, op_set_acl,
  op_sync, op_get_children2, op_reconfig, op_set_auth,
}
use go_zookeeper.Wire.Value.{
  Kind, Value, Values, bool, int32, int64, string, bytes, slice, struct, nil, cons, other,
}
use go_zookeeper.Wire.Structs.{
  empty_type, path_response_type, stat_response_type, get_acl_response_type,
  get_children2_response_type, get_data_response_type,
}
use go_zookeeper.Watch.{watch_data, watch_child}
use go_zookeeper.Conn.{Response, no_func, watch_if_ok, watch_exists}
use go_zookeeper.Paths.{Utf8}
use go_zookeeper.Client.{Call, returns, asks, remembers, with_valid, zero_value}

-- What `res` points to after the request.
abbrev pub res_of : Kind → Response → Value
res_of k r = elim r.body [ none ↦ zero_value k | some v ↦ v ]

abbrev pub nth : ℕ → Values → Value
nth i nil = other
nth zero (cons v vs) = v
nth (suc i) (cons v vs) = nth i vs

abbrev pub field_of : ℕ → Value → Value
field_of i (struct vs) = nth i vs
field_of i _ = other

abbrev pub text : Value → Bytes
text (string bs) = bs
text _ = []

abbrev pub texts_of : Values → List Bytes
texts_of nil = []
texts_of (cons v vs) = text v ∷ texts_of vs

abbrev pub texts : Value → List Bytes
texts (slice vs) = texts_of vs
texts _ = []

abbrev pub bytes_in : Value → Option Bytes
bytes_in (bytes b) = b
bytes_in _ = none

pub record Acl : Type 0 where
  pub perms : ℤ
  pub scheme : Bytes
  pub id : Bytes

abbrev pub acl_values : List Acl → Values
acl_values [] = nil
acl_values (a ∷ acls) =
    cons (struct (cons (int32 a.perms) (cons (string a.scheme) (cons (string a.id) nil))))
      (acl_values acls)

-- flags&FlagSequence == FlagSequence
abbrev pub has_sequence : ℤ → Bool
has_sequence flags = uint32 flags / 2 % 2 == 1

abbrev pub path_request : Bytes → Value
path_request path = struct (cons (string path) nil)

abbrev pub watch_request : Bytes → Bool → Value
watch_request path watch = struct (cons (string path) (cons (bool watch) nil))

unfoldable pub add_auth : Bytes → Option Bytes → Call (Option Error)
add_auth scheme auth =
    asks op_set_auth (struct (cons (int32 (pos 0)) (cons (string scheme) (cons (bytes auth) nil))))
      empty_type no_func
      (λ r. elim r.err [
        | some e ↦ returns (some e)
        | none ↦ remembers (record { scheme = scheme; auth = auth }) (returns none)
      ])

module _ (u : Utf8) where
  unfoldable pub children : Bytes → Call (List Bytes × Option Value × Option Error)
  unfolding with_valid
  children path =
      with_valid u path false (λ e. ([], none, some e))
        (asks op_get_children2 (watch_request path false) get_children2_response_type no_func (λ r.
          let res = res_of get_children2_response_type r in
          returns (texts (field_of 0 res), some (field_of 1 res), r.err)))

  unfoldable pub children_w : Bytes → Call (List Bytes × Option Value × Option ℕ × Option Error)
  unfolding with_valid
  children_w path =
      with_valid u path false (λ e. ([], none, none, some e))
        (asks op_get_children2 (watch_request path true) get_children2_response_type
          (watch_if_ok path watch_child)
          (λ r.
            let res = res_of get_children2_response_type r in
            elim r.err [
              | some e ↦ returns ([], none, none, some e)
              | none ↦ returns (texts (field_of 0 res), some (field_of 1 res), r.watcher, none)
            ]))

  unfoldable pub get : Bytes → Call (Option Bytes × Option Value × Option Error)
  unfolding with_valid
  get path =
      with_valid u path false (λ e. (none, none, some e))
        (asks op_get_data (watch_request path false) get_data_response_type no_func (λ r.
          let res = res_of get_data_response_type r in
          returns (bytes_in (field_of 0 res), some (field_of 1 res), r.err)))

  unfoldable pub get_w : Bytes → Call (Option Bytes × Option Value × Option ℕ × Option Error)
  unfolding with_valid
  get_w path =
      with_valid u path false (λ e. (none, none, none, some e))
        (asks op_get_data (watch_request path true) get_data_response_type
          (watch_if_ok path watch_data)
          (λ r.
            let res = res_of get_data_response_type r in
            elim r.err [
              | some e ↦ returns (none, none, none, some e)
              | none ↦ returns (bytes_in (field_of 0 res), some (field_of 1 res), r.watcher, none)
            ]))

  unfoldable pub set : Bytes → Option Bytes → ℤ → Call (Option Value × Option Error)
  unfolding with_valid
  set path dat version =
      with_valid u path false (λ e. (none, some e))
        (asks op_set_data
          (struct (cons (string path) (cons (bytes dat) (cons (int32 version) nil))))
          stat_response_type no_func
          (λ r. returns (some (field_of 0 (res_of stat_response_type r)), r.err)))

  unfoldable pub create : Bytes → Option Bytes → ℤ → List Acl → Call (Bytes × Option Error)
  unfolding with_valid
  create path dat flags acl =
      with_valid u path (has_sequence flags) (λ e. ([], some e))
        (asks op_create
          (struct (
            cons (string path)
              (cons (bytes dat) (cons (slice (acl_values acl)) (cons (int32 flags) nil)))))
          path_response_type no_func
          (λ r. returns (text (field_of 0 (res_of path_response_type r)), r.err)))

  unfoldable pub delete : Bytes → ℤ → Call (Option Error)
  unfolding with_valid
  delete path version = with_valid u path false some (
      asks op_delete (struct (cons (string path) (cons (int32 version) nil))) empty_type no_func
        (λ r. returns r.err))

  unfoldable pub exists : Bytes → Call (Bool × Option Value × Option Error)
  unfolding with_valid
  exists path =
      with_valid u path false (λ e. (false, none, some e))
        (asks op_exists (watch_request path false) stat_response_type no_func (λ r.
          let stat = some (field_of 0 (res_of stat_response_type r)) in
          elim r.err [
            | some no_node ↦ returns (false, stat, none)
            | other_err ↦ returns (true, stat, other_err)
          ]))

  unfoldable pub exists_w : Bytes → Call (Bool × Option Value × Option ℕ × Option Error)
  unfolding with_valid
  exists_w path =
      with_valid u path false (λ e. (false, none, none, some e))
        (asks op_exists (watch_request path true) stat_response_type (watch_exists path) (λ r.
          let stat = some (field_of 0 (res_of stat_response_type r)) in
          elim r.err [
            | none ↦ returns (true, stat, r.watcher, none)
            | some no_node ↦ returns (false, stat, r.watcher, none)
            | some e ↦ returns (false, none, none, some e)
          ]))

  -- The ACLs are the slice of their structs.
  unfoldable pub get_acl : Bytes → Call (Value × Option Value × Option Error)
  unfolding with_valid
  get_acl path =
      with_valid u path false (λ e. (slice nil, none, some e))
        (asks op_get_acl (path_request path) get_acl_response_type no_func (λ r.
          let res = res_of get_acl_response_type r in
          returns (field_of 0 res, some (field_of 1 res), r.err)))

  unfoldable pub set_acl : Bytes → List Acl → ℤ → Call (Option Value × Option Error)
  unfolding with_valid
  set_acl path acl version =
      with_valid u path false (λ e. (none, some e))
        (asks op_set_acl
          (struct (cons (string path) (cons (slice (acl_values acl)) (cons (int32 version) nil))))
          stat_response_type no_func
          (λ r. returns (some (field_of 0 (res_of stat_response_type r)), r.err)))

  unfoldable pub sync : Bytes → Call (Bytes × Option Error)
  unfolding with_valid
  sync path =
      with_valid u path false (λ e. ([], some e))
        (asks op_sync (path_request path) path_response_type no_func
          (λ r. returns (text (field_of 0 (res_of path_response_type r)), r.err)))

-- reconfigReponse is a getDataResponse.
unfoldable pub internal_reconfig :
    Option Bytes → Option Bytes → Option Bytes → ℤ → Call (Value × Option Error)
internal_reconfig joining leaving members version =
    asks op_reconfig
      (struct (
        cons (bytes joining)
          (cons (bytes leaving) (cons (bytes members) (cons (int64 version) nil)))))
      get_data_response_type no_func
      (λ r. returns (field_of 1 (res_of get_data_response_type r), r.err))

unfoldable pub incremental_reconfig : List Bytes → List Bytes → ℤ → Call (Value × Option Error)
unfolding internal_reconfig
incremental_reconfig joining leaving version =
    internal_reconfig (some (join b',' joining)) (some (join b',' leaving)) none version

unfoldable pub reconfig : List Bytes → ℤ → Call (Value × Option Error)
unfolding internal_reconfig
reconfig members version = internal_reconfig none none (some (join b',' members)) version

-- AuthACL, WorldACL and DigestACL of zk/util.go; the sum of SHA-1 and the standard base64 encoding are
-- parameters. hash.Hash documents that Write never fails.
unfoldable pub auth_acl : ℤ → List Acl
auth_acl perms = record { perms = perms; scheme = str "auth"; id = [] } ∷ []

unfoldable pub world_acl : ℤ → List Acl
world_acl perms = record { perms = perms; scheme = str "world"; id = str "anyone" } ∷ []

unfoldable pub digest_acl : (Bytes → Bytes) → (Bytes → Bytes) → ℤ → Bytes → Bytes → List Acl
digest_acl sha1 base64 perms user password =
    let digest = base64 (sha1 (user ++ (b':' ∷ password))) in
    record { perms = perms; scheme = str "digest"; id = user ++ (b':' ∷ digest) } ∷ []
