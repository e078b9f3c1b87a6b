-- ===== src/Numpy.antt =====
-- Arrays of complex numbers, and the functions of numpy and scipy on them that the program calls,
-- as an interface. An array is a list; the conversions between widths of floats are left out. The
-- functions that raise on some arguments the program may pass return a result.
pub mod Fixed
use analysis_app.Prelude.{ℕ, String, Bool, List, [], length, ◌≡◌, ◌≤◌, ◌<◌}
use analysis_app.Prelude.Results.{Result, ok, raised}

pub record Complex (F : Type 0) : Type 0 where
  pub re : F
  pub im : F

pub record Numpy (F : Type 0) : Type 0 where
  pub pi : F
  pub log : F → F
  pub clip : F → F → F → F
  pub maximum : F → F → F
  -- on one complex number: np.abs, np.angle, np.conj, the operators, and np.exp(1j * x)
  pub abs : Complex F → F
  pub angle : Complex F → F
  pub conj : Complex F → Complex F
  pub over : Complex F → F → Complex F
  pub scale : F → Complex F → Complex F
  pub times : Complex F → Complex F → Complex F
  pub plus : Complex F → Complex F → Complex F
  pub minus : Complex F → Complex F → Complex F
  pub power : Complex F → ℕ → Complex F
  pub cis : F → Complex F
  -- of an array; the greatest and the least element are those of an array that is not empty
  pub mean : List F → F
  pub mean_complex : List (Complex F) → Complex F
  pub std : List F → F
  pub var : List F → F
  pub sum : List F → F
  pub max : List F → F
  pub min : List F → F
  pub median : List F → F
  pub percentile : List F → F → F
  pub argmax : List F → Result ℕ
  pub sort : List F → List F
  pub argsort : List F → List ℕ
  -- the different values, in their order
  pub unique : List F → List F
  pub unwrap : List F → List F
  pub cumsum : List F → List F
  -- np.fft and scipy.fft, scipy.signal
  pub fft : List (Complex F) → List (Complex F)
  pub fftfreq : ℕ → F → List F
  pub fftshift : List F → List F
  -- welch(iq, fs, nperseg, return_onesided=False)
  pub welch : List (Complex F) → F → ℕ → Result (List F × List F)
  -- np.correlate(a, b, mode='full'), find_peaks(ac, height, distance)[0]
  pub correlate_full : List F → List F → List F
  pub find_peaks : List F → F → ℕ → List ℕ
  -- np.polyfit(t, y, 1), the slope first, which raises LinAlgError on some times, and np.polyval
  pub polyfit_line : List F → List F → Result (F × F)
  pub polyval_line : F × F → List F → List F

-- What numpy and scipy document of the shapes of their results, and of what they refuse.
pub record IsShaped (F : Type 0) ⦃np : Numpy F⦄ : Type 0 where
  pub length-sort : (xs : List F) → length (np.sort xs) ≡ length xs
  pub length-cumsum : (xs : List F) → length (np.cumsum xs) ≡ length xs
  pub length-fft : (xs : List (Complex F)) → length (np.fft xs) ≡ length xs
  pub length-fftfreq : (n : ℕ) (d : F) → length (np.fftfreq n d) ≡ n
  pub length-fftshift : (xs : List F) → length (np.fftshift xs) ≡ length xs
  pub argmax_some :
      (xs : List F) → 0 < length xs → (i : ℕ) × (np.argmax xs ≡ ok i) × (i < length xs)
  pub argmax_none : (e : String) × (np.argmax [] ≡ raised e)
  pub welch_some :
      (xs : List (Complex F)) (fs : F) (n : ℕ)
      → 0 < n
      → n ≤ length xs
      → (p : List F × List F) × (np.welch xs fs n ≡ ok p) × (length p.0 ≡ n) × (length p.1 ≡ n)
