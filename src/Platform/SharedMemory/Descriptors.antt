-- ===== src/Platform/SharedMemory/Descriptors.antt =====
-- Which descriptors are open, and what POSIX says of the calls about them.
use hope_threading.Prelude.{ℕ, ◌≡◌, Bool, false, ◌&&◌, ◌||◌, not, none, some, List, ◌==◌}
use hope_threading.Platform.SharedMemory.{Os}

pub record Descriptors {W : Type 0} (os : Os W) : Type 0 where
  pub is_open : ℕ → W → Bool
  pub open_new :
      (name : List ℕ) (w : W) (fd : ℕ) → (os.shm_open name w).1 ≡ some fd → is_open fd w ≡ false
  pub shm_open-open :
      (name : List ℕ) (w : W) (fd d : ℕ)
      → (os.shm_open name w).1 ≡ some fd
      → is_open d (os.shm_open name w).0 ≡ (d == fd) || is_open d w
  pub shm_open-fails :
      (name : List ℕ) (w : W) (d : ℕ)
      → (os.shm_open name w).1 ≡ none
      → is_open d (os.shm_open name w).0 ≡ is_open d w
  pub close-open : (w : W) (fd d : ℕ) → is_open d (os.close fd w) ≡ not (d == fd) && is_open d w
  pub fstat-open : (w : W) (fd d : ℕ) → is_open d (os.fstat fd w).0 ≡ is_open d w
  pub ftruncate-open : (w : W) (fd n d : ℕ) → is_open d (os.ftruncate fd n w).0 ≡ is_open d w
  pub mmap-open : (w : W) (fd n d : ℕ) → is_open d (os.mmap fd n w).0 ≡ is_open d w
  pub munmap-open : (w : W) (a n d : ℕ) → is_open d (os.munmap a n w) ≡ is_open d w
  pub shm_unlink-open :
      (name : List ℕ) (w : W) (d : ℕ) → is_open d (os.shm_unlink name w).0 ≡ is_open d w
  pub set_invalid-open : (w : W) (d : ℕ) → is_open d (os.set_invalid w) ≡ is_open d w
