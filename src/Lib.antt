-- ===== src/Lib.antt =====
-- The native runtime of the Need for Speed Most Wanted port (runtime/src), which loads the game's
-- 32-bit ARM Android modules on Linux, relocates them and serves them what they expect of Android.
--
-- Parts:
--   Elf  runtime/src/elf32_loader.c and elf32_loader.h. elf32_map checks a module, reserves its image,
--        copies its segments and parses PT_DYNAMIC; elf32_relocate patches it; elf32_find_export looks
--        a symbol up; elf32_unmap gives the reservation back.
--        Elf/Format holds the ELF32 structures, Elf/Types the loader's own structures and its errors,
--        Elf/Ranges the range checks and page rounding, Elf/Segments the two mprotect loops,
--        Elf/Dynamic parse_dynamic and parse_relocation_info, Elf/Relocate relocation and lookup,
--        Elf/Load elf32_map and elf32_unmap.
--   Obb  runtime/src/obb_index.c. Obb/Parse opens an archive over the index that an earlier call left
--        and reads its ZIP directory, Obb/Index looks assets up and lists directories: the buffer that
--        nfsmw_obb_list fills takes one byte at a time, and a byte past its end does not fit.
--   Lifecycle  runtime/src/initializer_trace.c: the constructors and destructors of a loaded module.
--        What a called function does to the memory is the argument `execute`.
--   Fmod  runtime/src/fmod_filesystem.h: the callbacks through which FMOD opens, reads and seeks the
--        sound files under the audio root. The C library's streams are a parameter, the record Stdio.
--        Fmod/Features is fmod_cpu.h and the choice of an output of fmod_output.h.
--   Compat  runtime/src/compat_bridge.c, where the guest's C library meets the host's. Compat/Slots is the
--        word of a guest object that holds a host object; Compat/Mutex, Condition, Lock and Semaphore are
--        the objects kept so. Compat/Thread makes the attributes of a new thread, Compat/Signals translates
--        masks and actions, Compat/Resolve is the table of names, and Compat/Exit the exit handlers: what a
--        destructor does to the registry is the argument `invoke`, and one thread runs them.
--   Probe  runtime/src/relocation_probe.c, symbol_probe.c and softfp_symbols.c. Probe/Names holds the
--        lists of names, Probe/Hosts the host's libraries, Probe/Relocation the chain of providers that
--        elf32_relocate asks, and Probe/Symbols the census of imports.
--   Patches  nfsmw_apply_fmod_patches and nfsmw_apply_app_patches of runtime/src/jni_bridge.c, which
--        change instructions of two relocated modules.
--   Game  the loop of nfsmw_jni_run in runtime/src/jni_bridge.c, from the controller's state to the touches,
--        keys, motion events and steering of the game.
--   Audio  runtime/src/opensl_bridge.c with the sound functions of runtime/src/platform_probe.c: the
--        objects that the guest is given, their tables, the queue and the pump.
--   Font  new_bitmap_graphics, glyph_row and draw_text of runtime/src/jni_bridge.c, which draw the text that
--        the guest asks Android to draw.
--   Arrays  the arrays of the JNI table of runtime/src/jni_bridge.c.
--   Launch  main of runtime/src/main.c: the stages, in order, and what is released at the end.
--
-- How they interact: Launch runs the stages, each an action that succeeds or fails. Elf/Load makes
-- the images that Probe relocates, with the resolver of Elf/Relocate given by Probe/Relocation,
-- which asks Compat/Resolve and Elf/Relocate's lookup; Patches then changes them, and Lifecycle
-- calls their functions. Audio is reached by the dlopen and dlsym of compat_bridge.c, which
-- Audio/Objects models.
--
-- Prelude holds the shared tests, lists, texts, 32-bit words, bit lemmas and the error-and-state
-- monad Run; Memory is the process's memory, a byte for each address, with little-endian reads.
--
-- How the code corresponds: a C function has the same name here. Pointers are addresses and NULL is
-- 0. A uintptr_t or size_t has 32 bits, as on the ARM target, and sums that may wrap are add32 and
-- sub32. A function that sets an error message and returns -1 returns `err` with a constructor for
-- the message; the message's text is not modelled. A `goto done` is the function `done` applied to
-- what precedes it, and in main the failure of a stage, after which `finish` runs. A C int is an
-- integer ℤ of Prelude/Int in Game, Font and Arrays, where its overflow is left out. What the
-- system answers (open, fstat, mmap, mprotect, malloc, realloc, SDL) is a parameter: the records
-- Host and Sdl, the argument `mprotect`, `alloc` and `realloc_ok`. Loops are folds over the list of
-- the entries that they visit, so that no fuel is needed.
--
-- Bounds: the only bound is that of nfsmw_opensl_pump on calls of the pump within one another.
--
-- Not modelled: log lines and elf32_describe, which print; the cache flush after relocation and
-- patching; the functions of softfp_bridge.c, which cross a calling convention; the crash trace;
-- the probes of SDL and OpenGL in platform_probe.c, and the `--probe-gl` mode of main; of
-- jni_bridge.c the JNI functions other than those on arrays, the start of the activity and the
-- sound of a frame; of compat_bridge.c the functions that forward to the C library after changing
-- the layout of a structure (time, stat, streams, formatted output, properties), the ctype tables
-- and the self-test of signals; the assembly and the tools around the runtime.
pub mod Arrays
pub mod Audio
pub mod Compat
pub mod Elf
pub mod Fmod
pub mod Font
pub mod Game
pub mod Launch
pub mod Lifecycle
pub mod Memory
pub mod Obb
pub mod Patches
pub mod Prelude
pub mod Probe
