-- ===== src/Syscalls.antt =====
-- The stubs of src/stm32h7/Syscalls.cpp. Each sets `errno` to ENOSYS and returns a constant; only
-- `_isatty` returns 0.
use lwip_server.Base.{ℕ}
use lwip_server.Base.Int.{ℤ, pos, negsuc}

pub data StubErrno : Type 0 where
  enosys : StubErrno

pub record StubAnswer : Type 0 where
  pub value : ℤ
  pub errno : StubErrno

abbrev not_supported : StubAnswer
not_supported = record { value = negsuc 0; errno = enosys }

abbrev pub stub_close : ℕ → StubAnswer
stub_close file = not_supported

-- On the place of the `stat`.
abbrev pub stub_fstat : ℕ → ℕ → StubAnswer
stub_fstat file st = not_supported

abbrev pub stub_isatty : ℕ → StubAnswer
stub_isatty file = record { value = pos 0; errno = enosys }

abbrev pub stub_getpid : StubAnswer
stub_getpid = not_supported

abbrev pub stub_kill : ℕ → ℕ → StubAnswer
stub_kill pid sig = not_supported

-- The offset may be negative.
abbrev pub stub_lseek : ℕ → ℤ → ℕ → StubAnswer
stub_lseek file ptr dir = not_supported
