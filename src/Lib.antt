-- ===== src/Lib.antt =====
-- cdecl turns C and C++ declarations into English ("explain") and English into declarations
-- ("declare", "cast"). The parser (src/parser.y) builds an AST (src/c_ast.c, src/c_ast_util.c)
-- whose nodes carry types, 64-bit sets of bits (src/c_type.c); c_ast_check (src/errors.c) refuses
-- an AST that is no legal declaration in the current language (src/c_lang.c); src/english.c and
-- src/gibberish.c write an accepted one. The paths are from the root of the repository.
--
-- The files:
-- - Prelude: Boolean tests, lists and the order of the native numbers, and the library's names.
-- - Bits: `(x & m) != 0`, `~x`, and at_most_one_bit_set and exactly_one_bit_set of src/util.h.
-- - Lang, Lang/Find: src/c_lang.h and src/c_lang.c. A language is a bit of a 32-bit word.
--   c_lang_name is `none` where it fails its assertion. Strings are compared by strcasecmp, given
--   by its documented behaviour on ASCII letters.
-- - Types, Types/Tables, Types/Check, Types/Name, Types/Add: src/c_type.h and src/c_type.c. A
--   type is a number below 2^64. c_type_check is the loops over the tables in their order, an
--   early return being `some`; c_type_name writes into a buffer of 80 bytes and ends in
--   `overflow` where the code would write past it, in `internal_err` where it ends the program;
--   c_type_add gives the new value of what its pointer argument points to, or the error.
-- - CKind: src/c_kind.h and src/c_kind.c.
-- - Ast, Ast/Visit, Ast/Equiv, Ast/Take: src/c_ast.h and what src/c_ast.c and src/c_ast_util.c do
--   with a finished AST: visits, searches, c_ast_equiv, and taking a name or a storage class out
--   of it. A finished AST is a tree; a visit upward is given the list of the nodes above.
-- - Build, Build/Func, Build/Patch: how src/c_ast_util.c adds an array, a function or a block to
--   an AST that the parser builds, and puts a type into it. A chain of nodes is a list, the
--   parent first. Build/Cases, Build/Array, Build/Array/Storage and Build/Order are about arrays,
--   Build/Func/Placeholder about functions, Build/Patch/Whole about types.
-- - Gc: how src/c_ast.c allocates, links and frees nodes, with what c_ast_gc collects and
--   c_ast_gc_release keeps; the nodes are a list and pointers their identities. Gc/Kept,
--   Gc/Collect, Gc/Chain and Gc/Free are about the two ways in which nodes are freed, Gc/Fresh
--   about the identities.
-- - Output: what is written, as a list of pieces; a type, a kind or a language stands for its
--   name.
-- - Errors/Diag, Errors/FuncArgs, Errors/Nodes, Errors/Down: src/errors.c. The value of a visit
--   is `none` if it goes on, or the first error, with its place, message and hint.
--   c_ast_check_func_args keeps its four local variables in a state that each argument's round
--   changes; Nodes has one definition per case of c_ast_visitor_error, Down the visits and the
--   entry points, Warn the warnings.
-- - Errors/Rules: the same rules said of the AST, without a visit. The files Sound, Complete,
--   Rounds and Types below Nodes, FuncArgs and Down relate the two.
-- - English: src/english.c.
-- - Gibberish, Gibberish/Impl: src/gibberish.c, g_param_t being a state. Gibberish/Parts,
--   Gibberish/Laws, Gibberish/Steps and Gibberish/Balance follow that state through a printing;
--   Gibberish/Flaws is about two kinds of AST.
-- - RedBlack, RedBlack/Insert: src/red_black.c, but for deletion. A node with the way up from it
--   is a place, so that the parents, the rotations and the colors of the repair are those of the
--   code. RedBlack/Shape, RedBlack/Laws, RedBlack/Search, RedBlack/Height and RedBlack/Free
--   relate the tree to the list of its items in order, in RedBlack/Order; the comparison is a
--   parameter.
-- - Typedef: src/c_typedef.c over that tree; Typedef/Order is the order of the names,
--   Typedef/History about sequences of additions, Typedef/Init the predefined types, with the
--   parser as a parameter.
-- - Keyword: src/c_keyword.c with src/literals.c.
-- - Coloring, Coloring/Parse, Coloring/When: src/color.c, and the choice of colors at the start
--   in src/options.c; Coloring/Sgr has the grammar of colors. What the environment and the system
--   answer are arguments.
-- - Settings, Settings/Prompt: src/set.c, src/prompt.c and c_lang_set. Whether readline is
--   genuine and its marks are parameters; a prompt that overruns a buffer is `none`.
-- - Util, Util/Input: src/util.c and src/util.h, but for system calls; read_input_line is a
--   function of the lines that are still to come. Util/Paths and Util/Input/Stitch are about
--   paths and lines.
-- - Caret: print_caret and token_len of src/diagnostics.c, with size_t and unsigned arithmetic.
--   The columns of the terminal are an argument. Caret/Sizes and Caret/Scroll have the cases of
--   its window, Caret/Under what is above the caret.
-- - Command, Command/Session: what src/cdecl.c makes of its arguments, and its interactive loop;
--   yyparse is a parameter.
--
-- Most loops are over finite tables, lists or trees and are structural recursions. The loops with
-- fuel are the interactive loop, with a round for each line and one, c_ast_free_impl, whose calls
-- within each other are at most the nodes that are counted, the repair of the red-black tree,
-- whose rounds are at most the nodes above a node and one, and the two loops of src/color.c, for
-- each of which a text of n characters is given at least n + 1 rounds, each taking one character
-- at least. Words are written out at their width: `~` is at 32 bits for languages and at 64 bits
-- for types, and exactly_one_bit_set subtracts modulo 2^64.
--
-- Not modelled: the grammar and the lexer; the debug check for cycles; deletion from the
-- red-black tree, which has no caller; the options, the opening of files, and the terminal. The
-- memory that messages and names are kept in is left aside, save for the buffers of c_type_name
-- and of prompts.
pub mod Prelude
pub mod Bits
pub mod Lang
pub mod Types
pub mod CKind
pub mod Output
pub mod Ast
pub mod Errors
pub mod English
pub mod Gibberish
pub mod RedBlack
pub mod Typedef
pub mod Keyword
pub mod Coloring
pub mod Settings
pub mod Build
pub mod Gc
pub mod Util
pub mod Caret
pub mod Command
