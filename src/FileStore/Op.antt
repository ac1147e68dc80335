-- ===== src/FileStore/Op.antt =====
-- local-modules/@bayou/file-store-ot/FileOp.js. A blob is a `FrozenBuffer`: a type with an
-- equality of contents; its hash is the platform's, and a parameter.
use bayou.Prelude.{
  ℕ, ◌+◌, ◌≡◌, ◌↔◌, Bool, true, false, ◌&&◌, String, string_eq, nat_eq, Eq, ◌==◌, arith, Result, ok,
  bad_value, ◌>>=◌, ◌>>◌, guard, leb,
}
use bayou.FileStore.StoragePath

pub data FileOp (B : Type 0) : Type 0 where
  delete_all : FileOp B
  delete_blob : String → FileOp B
  delete_path : String → FileOp B
  delete_path_prefix : String → FileOp B
  delete_path_range : String → ℕ → ℕ → FileOp B
  write_blob : B → FileOp B
  write_path : String → B → FileOp B

module _ {B : Type 0} where
  unfoldable pub op_delete_path : String → Result (FileOp B)
  op_delete_path path = do p ← StoragePath.check path; ok (delete_path p)

  unfoldable pub op_delete_path_prefix : String → Result (FileOp B)
  op_delete_path_prefix path = do p ← StoragePath.check path; ok (delete_path_prefix p)

  unfoldable pub op_delete_path_range : String → ℕ → ℕ → Result (FileOp B)
  op_delete_path_range path start end = do
    p ← StoragePath.check path
    guard (leb (start + 1) end) bad_value
    ok (delete_path_range p start end)

  unfoldable pub op_write_path : String → B → Result (FileOp B)
  op_write_path path blob = do p ← StoragePath.check path; ok (write_path p blob)

module _ {B : Type 0} ⦃e : Eq B⦄ where
  -- `BaseOp.equals()`: the names and the arguments of the payloads.
  unfoldable pub op_equals : FileOp B → FileOp B → Bool
  op_equals delete_all delete_all = true
  op_equals (delete_blob a) (delete_blob b) = a == b
  op_equals (delete_path a) (delete_path b) = a == b
  op_equals (delete_path_prefix a) (delete_path_prefix b) = a == b
  op_equals (delete_path_range a m n) (delete_path_range b k l) = a == b && m == k && n == l
  op_equals (write_blob x) (write_blob y) = x == y
  op_equals (write_path a x) (write_path b y) = a == b && x == y
  op_equals _ _ = false

  -- Both directions, for the operations that a document holds.
  pub op_equals_iff : (a b : FileOp B) → (op_equals a b ≡ true) ↔ (a ≡ b)
  unfolding op_equals
  op_equals_iff delete_all b = ground arith
  op_equals_iff (delete_blob a) (delete_blob b) = ground (arith, string_eq.beq_iff a b)
  op_equals_iff (delete_path a) (delete_path b) = ground (arith, string_eq.beq_iff a b)
  op_equals_iff (delete_path_prefix a) (delete_path_prefix b) =
      ground (arith, string_eq.beq_iff a b)
  op_equals_iff (delete_path_range a m n) (delete_path_range b k l) =
      ground (arith, string_eq.beq_iff a b)
  op_equals_iff (write_blob x) (write_blob y) = ground (arith, e.beq_iff x y)
  op_equals_iff (write_path a x) (write_path b y) =
      ground (arith, string_eq.beq_iff a b, e.beq_iff x y)
  op_equals_iff a b = ground arith
