-- ===== src/Lib.antt =====
-- A verification library for c-lite, a small C library for 32-bit programs on its own kernel.
--
-- The parts over memory. The string functions of src/string.c, and those of src/compat.c, read and
-- write a flat byte memory (Memory), and are modelled in Str: blocks of memory (Str/Block), copies
-- (Str/Copy), comparisons (Str/Compare) and searches (Str/Search), each file of definitions with a
-- folder of proofs. The allocator of src/stdlib.c (sbrk, malloc, free) is Heap, with calloc and
-- realloc, which also write the bytes of the blocks, in Heap/Payload, and strdup and strndup of
-- src/string.c in Heap/Copies: the headers are a map from addresses, the kernel behind the brk
-- call is the record Kernel with the laws of that call. Heap/Blocks describes the allocator on a
-- list of blocks, and the files beside it prove that the linked headers follow that description.
--
-- The parts over texts. Text has the functions on lists of bytes that the string functions
-- compute, and the other parts are modelled over them. Stdlib has the rest of src/stdlib.c: the
-- environment (Stdlib/Env), the conversions between integers and text (Stdlib/Number), qsort and
-- bsearch (Stdlib/Sort), the division functions, rand and the table of atexit. Stdio has
-- src/stdio.c: vsnprintf with its conversions (Stdio/Format, and the loop in Stdio/Format/Print),
-- printf and its kin, which format into a buffer and write it (Stdio/Output), and the functions on
-- FILE (Stdio/Stream). Getopt is src/getopt.c, Fnmatch the patterns of src/fnmatch.c, Inet the
-- byte order and inet_aton of src/net.c, with the lookups of src/net.c and src/compat.c in
-- Inet/Hosts, Time has src/time.c, whose strftime calls snprintf. The character classes of
-- include/ctype.h are Ctype.
--
-- The parts over the kernel. Syscall has the wrappers of src/syscall.c, those for files in
-- Syscall/Files, stat and lstat with the structure that they fill in Syscall/Stat, the search of
-- execvp along PATH in Syscall/Exec, and the numbers of include/sys/syscall.h and include/errno.h
-- in Syscall/Numbers. The kernel is the record Os, a state and a function that answers a call: a
-- wrapper takes the state of the kernel and errno, and returns its result with both. Stdio/Stream,
-- Dirent (src/dirent.c), Signal (src/signal.c) and Compat (paths, temporary names and processes of
-- src/compat.c, vsscanf in Compat/Scan, and glob in Compat/Glob, with its walk over opendir,
-- readdir, stat and fnmatch in Compat/Glob/Walk) are functions over these wrappers. Base has the
-- tests on numbers, the integers and the lists. Tests has runs on concrete inputs.
--
-- Numbers. An address, a size and a byte are natural numbers; size_t is 32 bits wide and its
-- wrap-around is written out in Heap, that of an int in Stdlib/Number, that of a uint32_t in Inet
-- and Dirent. Objects of the string functions do not wrap round the end of the address space. A
-- comparison returns an integer. A set of signals is the 32 bits of its word. The operations of
-- the C type double are the record Doubles.
--
-- Loops. A loop whose length is an argument is recursion on that number. itoa and format_num have
-- fuel for 32 digits, which a 32-bit word never exceeds. A loop that runs to a NUL or to the end
-- of a chain, bsearch, qsort, fnmatch, vsnprintf, vsscanf, strftime, execvp, readdir and the loop
-- of realpath are recursion on fuel: each theorem on such a function says that it returns when the
-- fuel exceeds the length of the string, the number of blocks, elements or records, or the length
-- of the pattern, the format or the path. The walk of glob has fuel for the 4096 bytes that a
-- directory stream holds.
--
-- Not modelled: strtod, which is floating point; of src/compat.c sysinfo and uname, inet_ntop,
-- getnameinfo, the services and the terminal settings; the calls that do not return (exit, abort);
-- the overrun of the buffer of a double by a large precision; stubs that only return a constant;
-- src/pwd.c and src/regex.c; and the assembly.
pub mod Base
pub mod Memory
pub mod Ctype
pub mod Text
pub mod Str
pub mod Heap
pub mod Stdlib
pub mod Inet
pub mod Fnmatch
pub mod Stdio
pub mod Syscall
pub mod Getopt
pub mod Signal
pub mod Dirent
pub mod Time
pub mod Compat
pub mod Tests
