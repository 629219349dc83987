-- ===== src/Errors.antt =====
-- The semantic checks of src/errors.c. Children: `Diag` (messages), `FuncArgs` (the loops over
-- arguments), `Nodes` (the checks of one node), `Down` (the visits and c_ast_check),
-- `Warn` (the warnings), `Rules` (what
-- is checked, as statements about the AST).
pub mod Diag
pub mod FuncArgs
pub mod Nodes
pub mod Down
pub mod Rules
pub mod Warn
