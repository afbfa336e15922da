-- ===== src/Lib.antt =====
-- A model of cpplox, a bytecode compiler and virtual machine for the Lox language in C++, with
-- theorems about its parts.
--
-- The program runs as a pipeline. The scanner (src/scanner.hpp, src/scanner.cpp) cuts a source
-- text into tokens, one at each `++token_iter`. The compiler (src/compiler.cpp) pulls tokens and
-- writes bytecode through the class Chunk (src/chunk.hpp, src/chunk.cpp), one chunk for each
-- function. The virtual machine (src/vm.cpp) runs the chunks over objects (src/object.hpp) that
-- live in a mark-and-sweep heap (src/memory.hpp, src/memory.cpp); strings are shared by
-- src/interned_strings.cpp. A session of src/lox.cpp compiles and runs a file, or each line of a
-- prompt on one virtual machine.
--
-- Which file models which part:
--   Token             Token_type and Token of scanner.hpp.
--   Result            the exceptions of all parts, as values.
--   Scanner           Token_iterator. A `Cursor` holds token_begin_, token_end_ and line_; an
--                     iterator is the text from it up to source_end_. Scanner/Chars has the
--                     character classes, Scanner/Lexical the lexical grammar that the scanner is
--                     held against, Scanner/Keywords the table of keywords.
--   Opcode, Value     Opcode of chunk.hpp and Dynamic_type_value of value.hpp.
--   Chunk             class Chunk: one function for each `emit` function, and for the patching of
--                     jumps. Chunk/Disassembly is the walk over instructions in `operator<<`.
--   Memory            GC_heap. The trace function of a type of values is a parameter.
--   Compiler          struct Compiler: State has its fields and the moves on tokens and chunks,
--                     Variables locals, upvalues and globals, Functions and Expressions the
--                     precedence levels, Declarations and Statements the rest and `compile`.
--                     Named, Capture and Resolution are about the variable that a name stands for,
--                     Scopes and Declared about the locals of a scope.
--   Table             `std::unordered_map` as a list of entries.
--   Interned          Interned_strings. Destroy and Identity are about its two tables.
--   Objects           the types of object.hpp, Upvalue's methods and the trace functions.
--   Vm                class VM. State has its fields and the actions on them, Operators,
--                     Captures, Properties and Calls the instructions by what they are about,
--                     Instructions the switch, Run the loop, activations and collections, Print
--                     the printing of values. Keeps, Actions and Invariants carry a property of
--                     the state through all instructions and runs, and behind the errors that
--                     the property covers; HeapSound and Evolves are such properties. Live says
--                     which objects are in use, and Halts where a collection throws. Emitted runs
--                     what the chunk writer emits.
--   Lox               the sessions of run_file and run_prompt: the lines are given, and what a prompt
--                     prints of its failures is a list of them.
--   Tests             runs on concrete inputs, and each theorem at such an input.
--
-- Conventions. A function that changes an object returns the new object; an exception is the
-- `err` of a Result and drops the state of the compiler, which the caller discards. In Vm an
-- exception keeps the state instead, since a prompt goes on with it, and what has no defined
-- behaviour (a read behind the stack or the bytecode) is an error of its own, which the program
-- does not have. An exception that a prompt does not catch ends it; so does `assert`. Numbers
-- are natural numbers; `gsl::narrow` is a test that throws, and differences of `std::size_t`
-- wrap round (`size_sub`). Other sizes and line numbers do not wrap. A pointer is an address
-- that is not handed out twice; a pointer to a string is the string, since
-- src/interned_strings.cpp gives one pointer to each text; where the heap needs the address of
-- a string, `address_of` looks the text up in the table. The functions of one compilation are
-- numbered from 0, and Lox moves these numbers to the addresses where it puts the functions,
-- with the strings of a compilation made behind them. The model of the compiler drops the texts
-- that it interns and no function refers to, and the functions that it had made when it fails,
-- which stay in the heap until a collection: Lox puts there what a parameter, `leftover`, gives
-- for the source, and the theorems hold for any such objects. The sizes of control blocks and
-- the readings of the clock are parameters. `double` is a parameter type with its operations
-- (`Double` in Value), since the language has no floating-point numbers.
--
-- Fuel. The loop of `scan_token` gets one more round than there are characters left, since each
-- round but the last consumes one; the worklist loop of `collect_garbage` gets as many as there
-- are blocks and entries of the worklist, since a block is queued once. The compiler's functions
-- recur on fuel that bounds the depth of their calls, which is an argument of `compile`; too
-- little of it gives the error out_of_fuel. The virtual machine recurs on fuel that bounds the
-- rounds of an activation and the depth of activations; a program may run for ever, so that no fuel
-- is enough for all.
--
-- Not modelled: the output of debug mode and the text that a chunk or a token is printed as, since
-- no state depends on them; reading files and lines, the messages on the error stream and the
-- command line (src/lox.cpp, src/main.cpp), which are input and output.
pub mod Prelude
pub mod Token
pub mod Result
pub mod Scanner
pub mod Opcode
pub mod Value
pub mod Chunk
pub mod Memory
pub mod Objects
pub mod Compiler
pub mod Table
pub mod Interned
pub mod Vm
pub mod Lox
pub mod Tests
