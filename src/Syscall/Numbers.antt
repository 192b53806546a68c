-- ===== src/Syscall/Numbers.antt =====
-- The numbers of include/sys/syscall.h and the codes of include/errno.h that the wrappers use.
use c_lite.Base.{ℕ}

abbrev pub sys_write : ℕ
sys_write = 1

abbrev pub sys_read : ℕ
sys_read = 2

abbrev pub sys_exit : ℕ
sys_exit = 3

abbrev pub sys_getpid : ℕ
sys_getpid = 4

abbrev pub sys_fork : ℕ
sys_fork = 5

abbrev pub sys_execve : ℕ
sys_execve = 6

abbrev pub sys_wait4 : ℕ
sys_wait4 = 7

abbrev pub sys_getppid : ℕ
sys_getppid = 8

abbrev pub sys_brk : ℕ
sys_brk = 9

abbrev pub sys_mmap : ℕ
sys_mmap = 10

abbrev pub sys_munmap : ℕ
sys_munmap = 11

abbrev pub sys_pipe : ℕ
sys_pipe = 12

abbrev pub sys_dup : ℕ
sys_dup = 13

abbrev pub sys_dup2 : ℕ
sys_dup2 = 14

abbrev pub sys_kill : ℕ
sys_kill = 15

abbrev pub sys_ioctl : ℕ
sys_ioctl = 16

abbrev pub sys_open : ℕ
sys_open = 17

abbrev pub sys_close : ℕ
sys_close = 18

abbrev pub sys_lseek : ℕ
sys_lseek = 19

abbrev pub sys_stat : ℕ
sys_stat = 20

abbrev pub sys_fstat : ℕ
sys_fstat = 21

abbrev pub sys_unlink : ℕ
sys_unlink = 22

abbrev pub sys_mkdir : ℕ
sys_mkdir = 23

abbrev pub sys_chdir : ℕ
sys_chdir = 24

abbrev pub sys_getcwd : ℕ
sys_getcwd = 25

abbrev pub sys_getdents : ℕ
sys_getdents = 26

abbrev pub sys_ftruncate : ℕ
sys_ftruncate = 27

abbrev pub sys_poll : ℕ
sys_poll = 28

abbrev pub sys_uname : ℕ
sys_uname = 29

abbrev pub sys_rename : ℕ
sys_rename = 30

abbrev pub sys_rmdir : ℕ
sys_rmdir = 31

abbrev pub sys_symlink : ℕ
sys_symlink = 32

abbrev pub sys_readlink : ℕ
sys_readlink = 33

abbrev pub sys_lstat : ℕ
sys_lstat = 34

abbrev pub sys_truncate : ℕ
sys_truncate = 35

abbrev pub sys_access : ℕ
sys_access = 36

abbrev pub sys_link : ℕ
sys_link = 37

abbrev pub sys_futimens : ℕ
sys_futimens = 38

abbrev pub sys_utimens : ℕ
sys_utimens = 39

abbrev pub enoent : ℕ
enoent = 2

abbrev pub ebadf : ℕ
ebadf = 9

abbrev pub echild : ℕ
echild = 10

abbrev pub efault : ℕ
efault = 14

abbrev pub eexist : ℕ
eexist = 17

abbrev pub einval : ℕ
einval = 22

abbrev pub enotty : ℕ
enotty = 25

abbrev pub enospc : ℕ
enospc = 28

abbrev pub erange : ℕ
erange = 34

abbrev pub eafnosupport : ℕ
eafnosupport = 47

abbrev pub enametoolong : ℕ
enametoolong = 63

abbrev pub enosys : ℕ
enosys = 78
