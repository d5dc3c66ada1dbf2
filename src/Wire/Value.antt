-- ===== src/Wire/Value.antt =====
-- The types and values that the reflective codec of zk/structs.go walks over.
use go_zookeeper.Base.{ℤ, Bytes, Bool, Option}

-- multiHeader
pub record MultiHeader : Type 0 where
  pub op_type : ℤ
  pub done : Bool
  pub err_code : ℤ

-- A Go type as `reflect` shows it. `other` is every kind that the codec refuses, `multi` is the type
-- multiRequest, which has methods of its own.
mutual
  pub data Kind : Type 0 where
    bool int32 int64 string bytes multi other : Kind
    slice : Kind → Kind
    struct : Kinds → Kind

  pub data Kinds : Type 0 where
    end : Kinds
    field : Kind → Kinds → Kinds

-- A value of such a type; a nil []byte is `bytes none`. `Ops` are the operations of a multiRequest.
mutual
  pub data Value : Type 0 where
    bool : Bool → Value
    int32 : ℤ → Value
    int64 : ℤ → Value
    string : Bytes → Value
    bytes : Option Bytes → Value
    slice : Values → Value
    struct : Values → Value
    multi : Ops → MultiHeader → Value
    other : Value

  pub data Values : Type 0 where
    nil : Values
    cons : Value → Values → Values

  pub data Ops : Type 0 where
    no_ops : Ops
    op : MultiHeader → Value → Ops → Ops
