-- ===== src/Client/Requests.antt =====
-- Which requests the calls of the client make, and when they make none.
use go_zookeeper.Base.{
  All, ap, ◌∙◌, ◌≡◌, refl, ℤ, pos, IsInt32, IsInt64, join, Bytes, Bool, true, false, Option, none,
  some, List, [], arith,
}
use go_zookeeper.Constants.{Error, invalid_path}
use go_zookeeper.Wire.{ok, err, panic}
use go_zookeeper.Wire.Value.{Kind, string, bytes, slice, nil}
use go_zookeeper.Wire.Structs.{
  request_struct_for_op, find_struct, acl_type, path_watch_request_type, path_request_type,
}
use go_zookeeper.Wire.Spec.{
  HasKind, is_struct, is_bool, is_nil, is_int32, is_int64, more_fields, no_fields,
}
use go_zookeeper.Conn.{Conn, Response}
use go_zookeeper.Paths.{Utf8, validate_path}
use go_zookeeper.Paths.Ascii.{ReadsAscii, IsAscii, verdict}
use go_zookeeper.Paths.Whole.{is_path, validate_path-is_path, is_path-sequential}
use go_zookeeper.Client.Protected.{create_protected}
use go_zookeeper.Watch.{Event}
use go_zookeeper.Client.{
  Call, returns, panics, asks, remembers, draws, waits, World, run, with_valid,
}
use go_zookeeper.Client.Running.{run-refused}
use go_zookeeper.Constants.{op_multi}
use go_zookeeper.Wire.Value.{Value}
use go_zookeeper.Client.Multi.{Operation, multi_request}
use go_zookeeper.Client.Operations.{IsOperation, multi_request-HasKind}
use go_zookeeper.Client.Calls.{
  Acl, acl_values, path_request, watch_request, has_sequence, add_auth, children, children_w, get,
  get_w, set, create, delete, exists, exists_w, get_acl, set_acl, sync, internal_reconfig,
  incremental_reconfig, reconfig,
}

refused_lem {ℓ} :
    {A : Type ℓ} (u : Utf8) (w : World) (c : Conn) (path : Bytes) (is_sequential : Bool)
    (refused : Error → A) (next : Call A)
    → ReadsAscii u
    → IsAscii path
    → is_path path is_sequential ≡ false
    → run w (with_valid u path is_sequential refused next) c ≡ ok (c, refused invalid_path)
refused_lem u w c path is_sequential refused next au a h =
    run-refused u w c path is_sequential invalid_path refused next
      (validate_path-is_path u au path is_sequential a ∙ ap verdict h)

-- An ASCII path that is not "/" and parts (none but the first ".", none "..", none with a forbidden
-- character, none empty) never reaches the server: each call returns ErrInvalidPath at once and
-- leaves the connection as it was, so that no xid is taken and nothing is queued. This holds of the
-- calls that take any path, and of Create without FlagSequence; for Create with any flags and for
-- CreateProtectedEphemeralSequential it is stated of a path that would not do as a sequential one
-- either, where the last part may be empty.
pub calls-refused :
    (u : Utf8) (w : World) (c : Conn) (path seq_path : Bytes) (dat : Option Bytes)
    (version flags any_flags : ℤ) (acl : List Acl)
    → ReadsAscii u
    → IsAscii path
    → IsAscii seq_path
    → is_path path false ≡ false
    → is_path seq_path true ≡ false
    → has_sequence flags ≡ false
    → (run w (children u path) c ≡ ok (c, ([], none, some invalid_path)))
      × (run w (children_w u path) c ≡ ok (c, ([], none, none, some invalid_path)))
      × (run w (get u path) c ≡ ok (c, (none, none, some invalid_path)))
      × (run w (get_w u path) c ≡ ok (c, (none, none, none, some invalid_path)))
      × (run w (set u path dat version) c ≡ ok (c, (none, some invalid_path)))
      × (run w (create u path dat flags acl) c ≡ ok (c, ([], some invalid_path)))
      × (run w (delete u path version) c ≡ ok (c, some invalid_path))
      × (run w (exists u path) c ≡ ok (c, (false, none, some invalid_path)))
      × (run w (exists_w u path) c ≡ ok (c, (false, none, none, some invalid_path)))
      × (run w (get_acl u path) c ≡ ok (c, (slice nil, none, some invalid_path)))
      × (run w (set_acl u path acl version) c ≡ ok (c, (none, some invalid_path)))
      × (run w (sync u path) c ≡ ok (c, ([], some invalid_path)))
      × (run w (create u seq_path dat any_flags acl) c ≡ ok (c, ([], some invalid_path)))
      × (run w (create_protected u seq_path dat acl) c ≡ ok (c, ([], some invalid_path)))
unfolding children children_w get get_w set create delete exists exists_w get_acl set_acl sync
    create_protected
calls-refused u w c path seq_path dat version flags any_flags acl au a b h k f = (
  refused_lem u w c path false _ _ au a h,
  refused_lem u w c path false _ _ au a h,
  refused_lem u w c path false _ _ au a h,
  refused_lem u w c path false _ _ au a h,
  refused_lem u w c path false _ _ au a h,
  refused_lem u w c path (has_sequence flags) _ _ au a (rw (f) h),
  refused_lem u w c path false _ _ au a h,
  refused_lem u w c path false _ _ au a h,
  refused_lem u w c path false _ _ au a h,
  refused_lem u w c path false _ _ au a h,
  refused_lem u w c path false _ _ au a h,
  refused_lem u w c path false _ _ au a h,
  refused_lem u w c seq_path (has_sequence any_flags) _ _ au b
      (is_path-sequential seq_path (has_sequence any_flags) k),
  refused_lem u w c seq_path true _ _ au b k,
)

-- Every request of a program carries a value of the struct that requestStructForOp has for its opcode.
abbrev pub IsTyped {ℓ} : {A : Type ℓ} → Call A → Type 0
IsTyped (returns a) = Unit
IsTyped (panics p) = Unit
IsTyped (asks o pkt k func rest) =
    ((s : Kind) × (request_struct_for_op o ≡ some s) × HasKind s pkt)
    × ((r : Response) → IsTyped (rest r))
IsTyped (remembers cred rest) = IsTyped rest
IsTyped (draws rest) = (e : Option Error) (bs : Bytes) → IsTyped (rest e bs)
IsTyped (waits ch rest) = (ev : Event) → IsTyped (rest ev)

with_valid-IsTyped {ℓ} :
    {A : Type ℓ} (u : Utf8) (path : Bytes) (is_sequential : Bool) (refused : Error → A)
    (next : Call A)
    → IsTyped next
    → IsTyped (with_valid u path is_sequential refused next)
unfolding with_valid
with_valid-IsTyped u path is_sequential refused next h =
    elim (validate_path u path is_sequential)
      as (λ r.
        IsTyped (elim r [ ok t ↦ next | err e ↦ returns (refused e) | panic p ↦ panics p ])) [
          | ok t ↦ h
          | err e ↦ tt
          | panic p ↦ tt
        ]

-- The packet of Children, ChildrenW, Get, GetW, Set, Create, Delete, Exists, ExistsW, GetACL, SetACL, Sync,
-- AddAuth, IncrementalReconfig, Reconfig, and of Multi where it builds one, is a value of the struct
-- that requestStructForOp has for its opcode, where the arguments are values of their types.
pub calls-IsTyped :
    (u : Utf8) (path scheme : Bytes) (auth dat : Option Bytes) (version flags config : ℤ)
    (acl : List Acl) (joining leaving : List Bytes) (os : List Operation) (pkt : Value)
    → HasKind string (string path)
    → HasKind string (string scheme)
    → HasKind bytes (bytes auth)
    → HasKind bytes (bytes dat)
    → HasKind (slice acl_type) (slice (acl_values acl))
    → IsInt32 version
    → IsInt32 flags
    → IsInt64 config
    → HasKind bytes (bytes (some (join b',' joining)))
    → HasKind bytes (bytes (some (join b',' leaving)))
    → All IsOperation os
    → multi_request os ≡ ok pkt
    → IsTyped (children u path)
      × IsTyped (children_w u path)
      × IsTyped (get u path)
      × IsTyped (get_w u path)
      × IsTyped (set u path dat version)
      × IsTyped (create u path dat flags acl)
      × IsTyped (delete u path version)
      × IsTyped (exists u path)
      × IsTyped (exists_w u path)
      × IsTyped (get_acl u path)
      × IsTyped (set_acl u path acl version)
      × IsTyped (sync u path)
      × IsTyped (add_auth scheme auth)
      × IsTyped (incremental_reconfig joining leaving config)
      × IsTyped (reconfig joining config)
      × ((s : Kind) × (request_struct_for_op op_multi ≡ some s) × HasKind s pkt)
unfolding add_auth internal_reconfig incremental_reconfig reconfig children children_w get get_w set
    create delete exists exists_w get_acl set_acl sync find_struct request_struct_for_op
calls-IsTyped u path scheme auth dat version flags config acl joining leaving os pkt p s au d a hv
      hf hc hj hl ho e =
    let watched : (b : Bool) → HasKind path_watch_request_type (watch_request path b) =
      λ b. is_struct (more_fields p (more_fields (is_bool b) no_fields)) in
    let plain : HasKind path_request_type (path_request path) =
      is_struct (more_fields p no_fields) in
    (
      with_valid-IsTyped u path false _ _ ((_, refl, watched false), λ r. tt),
      with_valid-IsTyped u path false _ _ ((_, refl, watched true), λ r. ground arith),
      with_valid-IsTyped u path false _ _ ((_, refl, watched false), λ r. tt),
      with_valid-IsTyped u path false _ _ ((_, refl, watched true), λ r. ground arith),
      with_valid-IsTyped u path false _ _ (
        (
          _,
          refl,
          is_struct (more_fields p (more_fields d (more_fields (is_int32 version hv) no_fields))),
        ),
        λ r. tt,
      ),
      with_valid-IsTyped u path (has_sequence flags) _ _ (
        (
          _,
          refl,
          is_struct (
              more_fields p
                (more_fields d (more_fields a (more_fields (is_int32 flags hf) no_fields)))),
        ),
        λ r. tt,
      ),
      with_valid-IsTyped u path false _ _ (
        (_, refl, is_struct (more_fields p (more_fields (is_int32 version hv) no_fields))),
        λ r. tt,
      ),
      with_valid-IsTyped u path false _ _ ((_, refl, watched false), λ r. ground arith),
      with_valid-IsTyped u path false _ _ ((_, refl, watched true), λ r. ground arith),
      with_valid-IsTyped u path false _ _ ((_, refl, plain), λ r. tt),
      with_valid-IsTyped u path false _ _ (
        (
          _,
          refl,
          is_struct (more_fields p (more_fields a (more_fields (is_int32 version hv) no_fields))),
        ),
        λ r. tt,
      ),
      with_valid-IsTyped u path false _ _ ((_, refl, plain), λ r. tt),
      (
        (
          _,
          refl,
          is_struct (
              more_fields (is_int32 (pos 0) (omega arith))
                (more_fields s (more_fields au no_fields))),
        ),
        λ r. ground arith,
      ),
      (
        (
          _,
          refl,
          is_struct (
              more_fields hj
                (more_fields hl (more_fields is_nil (more_fields (is_int64 config hc) no_fields)))),
        ),
        λ r. tt,
      ),
      (
        (
          _,
          refl,
          is_struct (
              more_fields is_nil
                (more_fields is_nil (more_fields hj (more_fields (is_int64 config hc) no_fields)))),
        ),
        λ r. tt,
      ),
      multi_request-HasKind os pkt ho e,
    )
