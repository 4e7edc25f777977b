-- ===== src/Lib.antt =====
-- UTBot C/C++ generates unit tests: its server reads a project, decides which functions it can handle,
-- runs a symbolic executor on them and prints tests. This library models parts of the server that are
-- its own logic and not the driving of clang, KLEE, compilers or the file system.
--
-- Parts, by the folder of their modules; `Base` holds what they share.
--   Types    server/src/types. `Kinds` is the class `Type` with the list of its kinds, from the
--            outside in; `Queries` and `Creation` are its methods; `Handler` is `TypesHandler` with the
--            tables of named types and the maps of structs and enums; `Support` is `isSupportedType`,
--            whose two mutable caches are the record `CheckState`, passed from call to call.
--            Proofs: `Dimension`, `Wrapping`, `Pointers`, `Classify`, `Sizes`, `Support/Cover`,
--            `Support/Known`, `Support/Returns`. `Names` is the functions on names of types and the
--            default values of tests, with proofs in `NameRules`.
--   Strings  server/src/utils/StringUtils.cpp and StringUtils.h. `Affixes`, `Split`, `Trim`, `Replace`
--            and `Numbers` hold functions and proofs together.
--   Names    server/src/NameDecorator.cpp. `Keywords` holds the tables, `Decorate` the renaming of
--            keywords; the regular expression of `decorate` is written as a scan for words.
--   Filter   server/src/FeaturesFilter.cpp. `PrivateArrays` is `hasPrivateArray`, `Methods` the predicate
--            that erases methods, `Globals` is `filterGlobalParameters`, `Files` the loop over the files;
--            proofs are in `Accepts` and `Server`. What the filter asks of `TypesHandler` is the record `Queries`,
--            which `Server` fills with `isSupportedType` and `hasPrivateArray`.
--   Building server/src/building/BaseCommand.cpp and CompileCommand.cpp: `Command` is the argument list
--            with its iterators, each argument with a number of its own that an iterator keeps;
--            `Iterators` has what keeps them in place.
--   Klee     server/src/utils/KleeUtils.cpp (`Operators`, proofs in `Renaming`, and `EntryPoint`) and
--            SanitizerUtils.cpp (`Sanitizers`).
--   Values   server/src/Tests.cpp and Tests.h, with what they use of PrinterUtils.cpp, StubsUtils.cpp and
--            StringUtils.cpp in server/src/utils: `KTestObjectParser` makes a view of a value from the
--            bytes of a KLEE object. `Bytes` is `readBytesAsValue`, `Literals` the text of numbers,
--            characters and strings, `Views` the classes of views, `Reading` the views of primitive
--            types and enums, `Arrays` and `Structs` those of arrays and structs, `Pointers` the texts
--            of pointers, `Lookup` the search for the field that a pointer points to. Proofs:
--            `LittleEndian`, `BitFields`, `FieldCopy` and `SignExtension` for the bytes; `Decoding`, a
--            reader of C string literals, and `LiteralText`; `Union` and `StructViews`; `FieldSearch` and
--            `LookupLaws`.
--   Printing server/src/printers/Printer.cpp and Printer.h: `Printer` is the stream as a text, the depth of
--            the indentation and the languages, with one function for each operation; the thread's own
--            counter of loops is an argument. `Functions` prints declarations of functions and calls;
--            `Braces` has the depth and the braces of loops. `Constraints` is
--            KleeConstraintsPrinter.cpp, with its proofs in `ConstraintSizes` and
--            `ConstraintLaws`.
--   Paths    server/src/utils/path/FileSystemPath.h (`FilePath`), Paths.h, Paths.cpp and ProjectContext.cpp
--            in server/src: a path is a list of names in normal form. `FileNames` are the names of test and
--            stub files, `FileKinds` the kinds of files by extension, `ProjectDirs` and `Project` the
--            places of the files of a project, over any `fs::relative` and `fs::exists`. Proofs:
--            `Normal`, `Directories`, `Stems`, `SubPaths`, `TestNames`, `TestPaths` and `Mangling`.
--   Coverage server/src/coverage: `LineSet` and `FileCoverage` are Coverage.h with `countLineCoverage`,
--            `Tools` and `Gcov` the maps that the two tools read from documents, `TestList` the parts of
--            TestRunner.cpp that are no processes. Proofs: `Lines`, `GcovLines` and `TestNames`.
--   Mutex    server/src/utils/FairMutex.cpp. `Fair` has one function for each operation and the relation
--            `Step` of one step of one thread, with the wake-ups of its condition variable;
--            `Safety` has what holds in all reachable states.
-- Each folder's `Examples` holds concrete runs.
--
-- Correspondence. A function has the name of its C++ function in snake case. An exception is the `err`
-- of a `Result`; `std::string` is a list of bytes; an unordered map is an association list, whose first
-- entry counts; a mutable field is a value that is passed on; `size_t` arithmetic that can wrap around is
-- written modulo 2 ^ 64. Sizes of C types are those of LP64 targets.
--
-- Fuel and bounds. `type_size` runs on fuel 2, as an array is one level above its base type.
-- `is_supported_type` runs on twice the number of struct fields that the handler knows, and 3: every
-- call of the check enters a new field's type name into one of the two caches, or goes to a base type,
-- which is no array and no pointer. `replace_all` runs on the length of the text and 1.
-- `has_private_array_fuel`, `struct_view` and `traverse_lazy_in_struct` run on fuel for the nesting of structs; the bisection of
-- `upper_bound` runs on the number of fields. Numbers are printed with 20 decimal or 16 hexadecimal
-- digits, enough for 64 bits.
-- `gen_constraints` runs on fuel for the nesting of structs, the loops that count lines on the number of
-- lines they can visit, and `mangle_extensions` on the length of the name.
-- Tickets of the mutex are unbounded numbers.
--
-- In `Values` a byte is a number below 256, and an access out of bounds or another undefined behaviour is
-- an `err`. The scientific output of floating-point numbers is an argument of the definitions that use it.
--
-- Not modelled: the constructor of `Type` from clang's types, the file system, the driving of
-- clang, KLEE, compilers and gRPC, the reading of KLEE's files, the loop over test cases,
-- the printers of tests, stubs, KLEE files and makefiles, the plugins, and log output.
pub mod Base
pub mod Types
pub mod Strings
pub mod Names
pub mod Filter
pub mod Building
pub mod Klee
pub mod Values
pub mod Paths
pub mod Printing
pub mod Coverage
pub mod Mutex
