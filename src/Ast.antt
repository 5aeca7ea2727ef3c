-- ===== src/Ast.antt =====
-- ACLM/ast_nodes.py: the syntax tree that the parser hands to the code generator.
pub mod Expr
pub mod Program
pub mod Cpu
pub mod System
pub mod Kernel
pub mod Isa
pub mod Stmt
