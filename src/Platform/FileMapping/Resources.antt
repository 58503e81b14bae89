-- ===== src/Platform/FileMapping/Resources.antt =====
-- Which handles and views are held, and what Windows says of the calls about them.
use hope_threading.Prelude.{ℕ, ◌≡◌, Bool, false, ◌&&◌, ◌||◌, not, none, some, List, ◌==◌}
use hope_threading.Platform.FileMapping.{Os}

-- `is_open` is about the handles of mappings, `is_view` about the addresses of views.
pub record Resources {W : Type 0} (os : Os W) : Type 0 where
  pub is_open : ℕ → W → Bool
  pub is_view : ℕ → W → Bool
  pub create-new :
      (high low : ℕ) (name : List ℕ) (w : W) (h : ℕ)
      → (os.create_file_mapping high low name w).1 ≡ some h
      → is_open h w ≡ false
  pub create-open :
      (high low : ℕ) (name : List ℕ) (w : W) (h d : ℕ)
      → (os.create_file_mapping high low name w).1 ≡ some h
      → is_open d (os.create_file_mapping high low name w).0 ≡ (d == h) || is_open d w
  pub create-fails :
      (high low : ℕ) (name : List ℕ) (w : W) (d : ℕ)
      → (os.create_file_mapping high low name w).1 ≡ none
      → is_open d (os.create_file_mapping high low name w).0 ≡ is_open d w
  pub create-view :
      (high low : ℕ) (name : List ℕ) (w : W) (a : ℕ)
      → is_view a (os.create_file_mapping high low name w).0 ≡ is_view a w
  pub map-new : (h n : ℕ) (w : W) (a : ℕ) → (os.map_view h n w).1 ≡ some a → is_view a w ≡ false
  pub map-view :
      (h n : ℕ) (w : W) (a d : ℕ)
      → (os.map_view h n w).1 ≡ some a
      → is_view d (os.map_view h n w).0 ≡ (d == a) || is_view d w
  pub map-fails :
      (h n : ℕ) (w : W) (d : ℕ)
      → (os.map_view h n w).1 ≡ none
      → is_view d (os.map_view h n w).0 ≡ is_view d w
  pub map-open : (h n : ℕ) (w : W) (d : ℕ) → is_open d (os.map_view h n w).0 ≡ is_open d w
  pub unmap-view : (w : W) (a d : ℕ) → is_view d (os.unmap_view a w) ≡ not (d == a) && is_view d w
  pub unmap-open : (w : W) (a d : ℕ) → is_open d (os.unmap_view a w) ≡ is_open d w
  pub close-open : (w : W) (h d : ℕ) → is_open d (os.close_handle h w) ≡ not (d == h) && is_open d w
  pub close-view : (w : W) (h d : ℕ) → is_view d (os.close_handle h w) ≡ is_view d w
  pub query-open : (w : W) (a d : ℕ) → is_open d (os.virtual_query a w).0 ≡ is_open d w
  pub query-view : (w : W) (a d : ℕ) → is_view d (os.virtual_query a w).0 ≡ is_view d w
  pub clear-open : (w : W) (d : ℕ) → is_open d (os.clear_error w) ≡ is_open d w
  pub clear-view : (w : W) (d : ℕ) → is_view d (os.clear_error w) ≡ is_view d w
  pub invalid-open : (w : W) (d : ℕ) → is_open d (os.set_invalid w) ≡ is_open d w
  pub invalid-view : (w : W) (d : ℕ) → is_view d (os.set_invalid w) ≡ is_view d w
