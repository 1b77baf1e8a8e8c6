-- ===== src/Lib.antt =====
-- A model of afs-as, an assembler for ARM64 and x86-64 that writes Mach-O and ELF objects.
--
-- The program lexes and parses assembly text, evaluates and classifies the expressions of its
-- directives, encodes instructions and hands an object model to a writer. This library models the
-- ELF writer, the expressions, the lexer and the core of the x86-64 encoder:
--
-- - Base: shared helpers. Base/Results has the result type of the model: `ok`, `err` with the
--   source's error, and `panic` for what aborts a build with overflow checks (an index out of
--   range, an unchecked addition that overflows) and for fuel that ran out. Base/Int has the signed
--   integers with the ranges of i32, i64 and i128, Base/Bytes the little-endian readers
--   (`rd_u16`, `rd_u32`, `rd_u64` of src/elf.rs), Base/Text the texts as lists of bytes.
-- - Elf: src/elf.rs. Elf/Ehdr, Elf/Shdr, Elf/Sym and Elf/Rela are `Elf64Ehdr`, `Elf64Shdr`,
--   `Elf64Sym` and `Elf64Rela` with `write` and `parse`; Elf/Strtab is `StringTable`; Elf/Model the
--   object model; Elf/Validate is `validate`; Elf/SymbolOrder is the renumbering of the symbols in
--   `write_elf`; Elf/Layout has `align_up`, the closure `place` and `encode_section_header_table`;
--   Elf/Writer puts them together as `write_elf`. A vector that `write` appends to is an argument
--   and the result. The field `data` of a section is called `contents`.
-- - Expr: src/expr.rs. Expr/Eval is `eval_with_symbols`; Expr/Linear is `linearize`; Expr/Classify
--   is `classify_with_lookup`, whose map is a function; Expr/Meaning is the specification, the
--   value of an expression in unbounded integers under any addresses. Expr/Assign is
--   `AbsoluteAssignmentResolver`: Expr/Assign/Walk has its loop with the explicit stack.
-- - Lex: src/lex.rs. Lex/Cursor is the state of `Lexer` with its elementary moves, Lex/Number,
--   Lex/Str and Lex/Scan are `read_number_literal`, `read_string_literal`, and `next_token` with
--   `tokenize_bytes`. Lex/Gap, Lex/Position and Lex/Covers are the specification: blanks and comments,
--   lines and columns, and the text of a token. The counters of lines and columns are the one
--   unchecked addition that wraps here in place of a panic.
-- - X86: src/x86/reg.rs, src/x86/mod.rs and part of src/x86/encode.rs. X86/Reg is `Reg` with `parse` and
--   `fmt`; X86/Operand the operands; X86/Rex the prefix; X86/Mem is `encode_mem`, X86/Parts is `Parts`
--   with `mem` and `finish`, and X86/Encode has the families `encode_mov`, `encode_lea`,
--   `encode_call_jmp`, `encode_jcc` and `encode_setcc`; X86/Encode/Families and X86/Encode/Modified have
--   the other functions for integer instructions. A structure that the source changes in place is
--   an argument and the result. X86/Mem/Decode, X86/Encode/Reader and
--   X86/Encode/Operation are the specification: how a processor in 64-bit mode reads the bytes.
--
-- Numbers are natural numbers or integers with the wrap-around and the checks of the source
-- written out. usize is 64 bits wide. The allocator's answer to `try_reserve` is a parameter of the
-- writer. Errors carry a constructor in place of the message text, with the values that the text
-- shows. Fuel occurs in two loops. The lexer has one more than the bytes left, since each
-- round takes a byte. The walk over the assignments has `budget`: a round passes a dependency, opens
-- an assignment or ends one, and an assignment is opened once.
--
-- Not modelled: `parse_elf` but for two decoders, Mach-O, SSE, x87 and the dispatch `encode` of the
-- x86-64 encoder with what it encodes itself (push, pop, movabs, cmov and the instructions without
-- operands), the encoder of ARM64, the parsers of both machines, the drivers and the command line.
pub mod Base
pub mod Elf
pub mod Expr
pub mod Lex
pub mod X86
