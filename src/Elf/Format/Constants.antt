-- ===== src/Elf/Format/Constants.antt =====
-- The constants of <elf.h> and <sys/mman.h> that elf32_loader.c and initializer_trace.c name.
use nfsmw_arm_linux.Prelude.{ℕ}

-- "\x7fELF" as a little-endian word.
abbrev pub elf_magic : ℕ
elf_magic = 0x464c457f

abbrev pub class_32 : ℕ
class_32 = 1

abbrev pub data_lsb : ℕ
data_lsb = 1

abbrev pub machine_arm : ℕ
machine_arm = 40

abbrev pub type_dyn : ℕ
type_dyn = 3

abbrev pub pt_load : ℕ
pt_load = 1

abbrev pub pt_dynamic : ℕ
pt_dynamic = 2

abbrev pub undefined_section : ℕ
undefined_section = 0

abbrev pub absolute_section : ℕ
absolute_section = 0xfff1

abbrev pub bind_local : ℕ
bind_local = 0

abbrev pub bind_global : ℕ
bind_global = 1

abbrev pub bind_weak : ℕ
bind_weak = 2

abbrev pub type_tls : ℕ
type_tls = 6

abbrev pub type_ifunc : ℕ
type_ifunc = 10

abbrev pub arm_abs32 : ℕ
arm_abs32 = 2

abbrev pub arm_glob_dat : ℕ
arm_glob_dat = 21

abbrev pub arm_jump_slot : ℕ
arm_jump_slot = 22

abbrev pub arm_relative : ℕ
arm_relative = 23

abbrev pub dt_null : ℕ
dt_null = 0

abbrev pub dt_pltrelsz : ℕ
dt_pltrelsz = 2

abbrev pub dt_hash : ℕ
dt_hash = 4

abbrev pub dt_strtab : ℕ
dt_strtab = 5

abbrev pub dt_symtab : ℕ
dt_symtab = 6

abbrev pub dt_rela : ℕ
dt_rela = 7

abbrev pub dt_relasz : ℕ
dt_relasz = 8

abbrev pub dt_relaent : ℕ
dt_relaent = 9

abbrev pub dt_strsz : ℕ
dt_strsz = 10

abbrev pub dt_syment : ℕ
dt_syment = 11

abbrev pub dt_init : ℕ
dt_init = 12

abbrev pub dt_fini : ℕ
dt_fini = 13

abbrev pub dt_soname : ℕ
dt_soname = 14

abbrev pub dt_rel : ℕ
dt_rel = 17

abbrev pub dt_relsz : ℕ
dt_relsz = 18

abbrev pub dt_relent : ℕ
dt_relent = 19

abbrev pub dt_pltrel : ℕ
dt_pltrel = 20

abbrev pub dt_jmprel : ℕ
dt_jmprel = 23

abbrev pub dt_init_array : ℕ
dt_init_array = 25

abbrev pub dt_fini_array : ℕ
dt_fini_array = 26

abbrev pub dt_init_arraysz : ℕ
dt_init_arraysz = 27

abbrev pub dt_fini_arraysz : ℕ
dt_fini_arraysz = 28

abbrev pub prot_read : ℕ
prot_read = 1

abbrev pub prot_write : ℕ
prot_write = 2

abbrev pub prot_exec : ℕ
prot_exec = 4
