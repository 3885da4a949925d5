-- ===== src/Display/Sound/Samples.antt =====
-- The samples of the console's mixer at the sink.
use wii_sec_u.Base.{◌≡◌, refl, ap, List, [], ◌∷◌}
use wii_sec_u.Base.All.{All}
use wii_sec_u.Base.Int.{ℤ, IsI16}
use wii_sec_u.Protocol.Roundtrip.{i16_join}
use wii_sec_u.StreamPlugin.Audio.{Pair}
use wii_sec_u.StreamPlugin.Net.{pcm_bytes}
use wii_sec_u.Display.Sound.{samples_of}

abbrev pub interleaved : List Pair → List ℤ
interleaved [] = []
interleaved ((l, r) ∷ ps) = l ∷ r ∷ interleaved ps

abbrev pub FitPair : Pair → Type 0
FitPair (l, r) = IsI16 l × IsI16 r

pub samples_of-pcm_bytes :
    (ps : List Pair) → All FitPair ps → samples_of (pcm_bytes ps) ≡ interleaved ps
unfolding samples_of pcm_bytes
samples_of-pcm_bytes [] h = refl
samples_of-pcm_bytes ((l, r) ∷ ps) ((fl, fr), h) =
    rw (i16_join l fl, i16_join r fr) (ap (λ xs. l ∷ r ∷ xs) (samples_of-pcm_bytes ps h))
