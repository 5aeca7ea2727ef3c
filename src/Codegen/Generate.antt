-- ===== src/Codegen/Generate.antt =====
-- ACLM/codegen.py: `generate`, from a program to the linked bytes.
use aclmv.Prelude.{
  ℕ, ◌+◌, ◌-◌, String, str_eq, Bool, true, false, not, ◌&&◌, ◌||◌, Option, none, some, List, [],
  ◌∷◌, ◌++◌, if◌then◌else◌, replicate, lookup, insert, Assoc, length,
}
use aclmv.Prelude.Int.{pos, negsuc}
use aclmv.Encoder.Call
use aclmv.Prelude.{◌==◌, ltb, leb}
use aclmv.Prelude.Text.{codes, lower, is_in, starts_with}
use aclmv.Ast.Expr.{SysNum}
use aclmv.Ast.Stmt.{Stmt, at, Nodes, nil, cons}
use aclmv.Encoder.{Assembler, init, link}
use aclmv.Elf.{wx_code_data_file_offsets}
use aclmv.Codegen.Data.{collect_structs, collect_data}
use aclmv.Codegen.Emit.{emit_all}
use aclmv.Codegen.{
  pure, ByteAssert, performed, assert_failed, Generator, Gen, ◌>>=◌, ◌>>◌, raise, get, set, asm,
  when, for_each, lbl, data_label,
}

-- `CodeGenerator.__init__`
abbrev pub start : Generator
start = record {
  asm' = init;
  data_layout = [];
  data_bytes = [];
  data_consts = [];
  string_lens = [];
  label_i = 0;
  emit_listing = false;
  teach_mode = false;
  deterministic = false;
  assert_bytes = [];
  assert_sizes = [];
  teach_map = [];
  baremetal = false;
  debug_dwarf = false;
  use_wx = false;
  needs_thr_futex = false;
  line_entries = [];
  structs = [];
  fn_locals = [];
  fn_args = [];
  in_fn = false;
  emitted = [];
  called = [];
}

-- `isinstance` of a statement of the program, for a class or several.
unfoldable pub any_stmt : (Stmt → Bool) → Nodes → Bool
any_stmt p nil = false
any_stmt p (cons (at line col s) ns) = let later = any_stmt p ns in p s || later

abbrev is_baremetal : Stmt → Bool
is_baremetal Stmt.target_baremetal = true
is_baremetal _ = false

abbrev is_deterministic : Stmt → Bool
is_deterministic Stmt.metal_deterministic = true
is_deterministic _ = false

abbrev is_pulse : Stmt → Bool
is_pulse (Stmt.pulse_sleep _) = true
is_pulse (Stmt.pulse_now _) = true
is_pulse _ = false

abbrev is_thread : Stmt → Bool
is_thread (Stmt.thread_spawn _) = true
is_thread (Stmt.thread_join _) = true
is_thread Stmt.thread_join_all = true
is_thread (Stmt.thread_exit _) = true
is_thread _ = false

-- `_ends_exit`
abbrev is_exit_number : SysNum → Bool
is_exit_number (SysNum.named name) = is_in (lower (codes name)) ("exit" ∷ "60" ∷ [])
is_exit_number (SysNum.literal (pos n)) = n == 60
is_exit_number (SysNum.literal (negsuc n)) = false

abbrev is_exit : Stmt → Bool
is_exit (Stmt.sys_call s) = is_exit_number s.num
is_exit _ = false

unfoldable pub ends_exit : Nodes → Bool
ends_exit nil = false
ends_exit (cons (at line col s) nil) = is_exit s
ends_exit (cons n (cons m ns)) = ends_exit (cons m ns)

-- The statements at the top level that are no functions, and those that are.
abbrev is_fn : Stmt → Bool
is_fn (Stmt.fn_def _ _ _ _) = true
is_fn _ = false

unfoldable pub select : Bool → Nodes → Nodes
select fns nil = nil
select fns (cons (at line col s) ns) =
    let rest = select fns ns in
    if is_fn s
    then (if fns then cons (at line col s) rest else rest)
    else (if fns then rest else cons (at line col s) rest)

-- `self.data_layout[name] = len(self.data_bytes)` and the bytes, whatever the layout holds.
unfoldable pub append_data : String → ℕ → Gen (Unit {0})
append_data name size = set λ g. record g {
  data_layout = insert name (length g.data_bytes) g.data_layout;
  data_bytes = g.data_bytes ++ replicate size 0;
}

-- The passes before the code.
unfoldable pub prepare : Nodes → Gen (Unit {0})
prepare ns = do
  when (any_stmt is_baremetal ns) (set λ g. record g { baremetal = true })
  set λ g. record g { structs = collect_structs g.structs ns }
  collect_data 0 ns
  when (any_stmt is_deterministic ns)
      (set λ g. record g { deterministic = true; asm' = record g.asm' { deterministic = true } })
  when (any_stmt is_pulse ns) (append_data "__timespec" 16)
  when (any_stmt is_thread ns)
      (do append_data "__thr_futex" 24; set λ g. record g { needs_thr_futex = true })

unfoldable pub exit_call : Gen (Unit {0})
exit_call = do
  asm (Call.mov_reg_imm64 "rax" (pos 60))
  asm (Call.xor_reg_reg "rdi" "rdi")
  asm Call.syscall

-- The code: the top level, an exit unless the program ends with one or is a kernel, and the functions.
unfoldable pub emit_program : Nodes → Gen (Unit {0})
emit_program ns = do
  emit_all (select false ns)
  g ← get
  when (not g.baremetal && not (ends_exit ns)) exit_call
  emit_all (select true ns)

-- The offsets of the data labels behind the code.
unfoldable pub data_offsets : ℕ → Assoc ℕ → Assoc ℕ → Assoc ℕ
data_offsets code_len [] offs = offs
data_offsets code_len ((name, off) ∷ rest) offs =
    data_offsets code_len rest (insert (data_label name) (code_len + off) offs)

-- The gap between the code and the data of the W^X image.
abbrev pub wx_pad : ℕ → ℕ
wx_pad code_len = let p = wx_code_data_file_offsets code_len in p.1 - p.0 - code_len

unfoldable pub pad_data : ℕ → Assoc ℕ → Assoc ℕ
pad_data pad [] = []
pad_data pad ((name, off) ∷ rest) =
    (name, if starts_with (codes "__data_") (codes name) then off + pad else off)
    ∷ pad_data pad rest

unfoldable pub link_offsets : Generator → Assoc ℕ
unfolding data_offsets pad_data
link_offsets g =
    let code_len = length g.asm'.code in
    let offs = data_offsets code_len g.data_layout g.asm'.labels in
    if g.use_wx then pad_data (wx_pad code_len) offs else offs

unfoldable pub link_program : Gen (Unit {0})
link_program g = performed g (link (some (link_offsets g)) g.asm')

-- `_run_asserts`
abbrev pub label_or : Option ℕ → Option ℕ → ℕ
label_or (some a) _ = a
label_or none (some b) = b
label_or none none = 0

abbrev pub asserted_size : Assembler → ByteAssert → ℕ
asserted_size s a =
    let from = label_or (lookup (lbl a.name) s.labels) (lookup a.name s.labels) in
    if leb from a.code_off then a.code_off - from else length s.code

unfoldable pub check_bytes : ByteAssert → Gen (Unit {0})
check_bytes a = do
  g ← get
  let size = asserted_size g.asm' a
  when (str_eq a.op "eq" && not (size == a.limit)) (raise (assert_failed a.name size a.limit))
  when (str_eq a.op "le" && ltb a.limit size) (raise (assert_failed a.name size a.limit))

unfoldable pub check_size : String × ℕ → Gen (Unit {0})
check_size p = do
  g ← get
  let n = if str_eq p.0 "code" then length g.asm'.code else length g.data_bytes
  when (ltb p.1 n) (raise (assert_failed p.0 n p.1))

unfoldable pub run_asserts : Gen (Unit {0})
run_asserts = do g ← get; for_each g.assert_bytes check_bytes; for_each g.assert_sizes check_size

-- The image that is built, with the code and the data that go into it; its bytes are the ELF writer's.
pub data Image : Type 0 where
  kernel : List ℕ → List ℕ → Image
  with_symtab : List ℕ → List ℕ → Assoc ℕ → Image
  exe_wx : List ℕ → List ℕ → Image
  exe : List ℕ → List ℕ → Image

-- `sorted(labels.items())`; no two labels have one name.
unfoldable pub before : List ℕ → List ℕ → Bool
before [] ys = true
before (x ∷ xs) [] = false
before (x ∷ xs) (y ∷ ys) = let rest = before xs ys in if x == y then rest else ltb x y

unfoldable pub insert_name : String × ℕ → Assoc ℕ → Assoc ℕ
unfolding before
insert_name p [] = p ∷ []
insert_name p (q ∷ qs) =
    let rest = insert_name p qs in if before (codes p.0) (codes q.0) then p ∷ q ∷ qs else q ∷ rest

unfoldable pub sort_names : Assoc ℕ → Assoc ℕ
unfolding insert_name before
sort_names [] = []
sort_names (p ∷ ps) = insert_name p (sort_names ps)

abbrev pub image_of : Generator → Image
image_of g =
    let code_b = g.asm'.code in
    if g.baremetal
    then kernel code_b g.data_bytes
    else (if g.debug_dwarf
        then with_symtab code_b g.data_bytes (sort_names g.asm'.labels)
        else (if g.use_wx then exe_wx code_b g.data_bytes else exe code_b g.data_bytes))

unfoldable pub generate : Nodes → Gen Image
unfolding prepare emit_program link_program run_asserts
generate ns = do prepare ns; emit_program ns; link_program; run_asserts; g ← get; pure (image_of g)
