-- ===== src/Codegen/Data.antt =====
-- ACLM/codegen.py: the passes that lay out the structs and the data before the code.
use aclmv.Prelude.{
  ℕ, ◌+◌, ◌-◌, ◌%◌, ◌^◌, String, List, [], ◌∷◌, ◌++◌, if◌then◌else◌, replicate, lookup, insert,
  Assoc, length,
}
use aclmv.Prelude.Int.{wrap}
use aclmv.Ast.Expr.{Expr}
use aclmv.Ast.Program
use aclmv.Prelude.{◌==◌}
use aclmv.Prelude.Text.{codes, utf8}
use aclmv.Ast.Expr.{Size}
use aclmv.Ast.Stmt.{Stmt, at, Nodes, nil, cons}
use aclmv.Encoder.{le_bytes}
use aclmv.Codegen.Basic.{as_bytes}
use aclmv.Codegen.{
  Struct, pure, unknown_size, zero_division, Gen, ◌>>=◌, ◌>>◌, skip, raise, get, set, on_option,
}

-- The loop over the fields of a struct: the offsets, and the size.
unfoldable pub place_fields : ℕ → Assoc ℕ → List (String × ℕ) → Struct
place_fields off fields [] = record { fields = fields; size = off }
place_fields off fields ((name, size) ∷ rest) =
    place_fields (off + size) (insert name off fields) rest

unfoldable mutual
  unfolding place_fields

  collect_struct : Assoc Struct → Stmt → Assoc Struct
  collect_struct t (Stmt.struct_def s) = insert s.name (place_fields 0 [] s.fields) t
  collect_struct t (Stmt.fn_def name args body locals) = collect_structs t body
  collect_struct t _ = t

  pub collect_structs : Assoc Struct → Nodes → Assoc Struct
  collect_structs t nil = t
  collect_structs t (cons (at line col s) ns) = collect_structs (collect_struct t s) ns

-- The data so far: the next offset is kept apart from the bytes, as in the source.
unfoldable pub place : String → ℕ → List ℕ → Gen ℕ
unfolding ◌>>=◌ set
place name off bytes = do
  set λ g. record g {
    data_layout = insert name off g.data_layout;
    data_bytes = g.data_bytes ++ bytes;
  }
  pure (off + length bytes)

unfoldable pub alloc_size : Size → Gen ℕ
alloc_size (Size.of_bytes n) = pure n
alloc_size (Size.of_struct name) = do
  g ← get
  on_option (lookup name g.structs) (λ t. pure t.size) (raise (unknown_size name))

-- `(a - (off % a)) % a`
abbrev pub align_pad : ℕ → ℕ → ℕ
align_pad a off = (a - off % a) % a

unfoldable pub align_data : ℕ → ℕ → Gen ℕ
align_data a off = if a == 0 then raise zero_division else (do
  set λ g. record g { data_bytes = g.data_bytes ++ replicate (align_pad a off) 0 }
  pure (off + align_pad a off))

unfoldable pub place_const : Program.DataConst → ℕ → Expr → Gen ℕ
unfolding place
place_const s off (Expr.number v) = do
  set λ g. record g { data_consts = insert s.name v g.data_consts }
  place s.name off (le_bytes 8 (wrap (2 ^ 64) v))
place_const s off (Expr.string text) = do
  set λ g. record g { string_lens = insert s.name (length (utf8 (codes text))) g.string_lens }
  place s.name off (utf8 (codes text) ++ (0 ∷ []))
place_const s off _ = pure off

-- One round of `_collect_data`: the next offset.
unfoldable pub collect_one : ℕ → Stmt → Gen ℕ
unfolding alloc_size align_data place place_const as_bytes
collect_one off (Stmt.data_alloc s) = do sz ← alloc_size s.size; place s.name off (replicate sz 0)
collect_one off (Stmt.data_align s) = align_data s.align off
collect_one off (Stmt.data_bytes s) = do
  as_bytes s.values
  set λ g. record g { string_lens = insert s.name (length s.values) g.string_lens }
  place s.name off s.values
collect_one off (Stmt.data_const s) = place_const s off s.value
collect_one off _ = pure off

unfoldable pub collect_data : ℕ → Nodes → Gen (Unit {0})
unfolding ◌>>=◌ collect_one
collect_data off nil = skip
collect_data off (cons (at line col s) ns) = do off' ← collect_one off s; collect_data off' ns
