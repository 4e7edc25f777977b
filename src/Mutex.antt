-- ===== src/Mutex.antt =====
-- server/src/utils/FairMutex.cpp: a mutex that is handed on in the order of the requests.
pub mod Fair
pub mod Safety
mod Examples
