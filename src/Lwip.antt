-- ===== src/Lwip.antt =====
-- What the network modules share of lwIP, which is not part of this repository.
use lwip_server.Base.{ℕ, Bool, true, false}

-- `err_t`: the codes that the code names, and the others.
pub data Err : Type 0 where
  err_ok err_mem err_abrt err_arg : Err
  err_other : ℕ → Err

abbrev pub is_ok : Err → Bool
is_ok err_ok = true
is_ok _ = false
