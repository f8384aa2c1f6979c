-- ===== src/Boundary.antt =====
-- The enclave's edge: the ocalls of src/Untrusted/Main.cpp, the ecall of src/Trusted/Enclave.cpp,
-- and the classes on either side that turn a status back into an exception.
pub mod Ocalls
pub mod Receipts
pub mod Ecalls
