-- ===== src/Hfe/Imd/Modes.antt =====
-- hfe/imd.go: the mode byte against the rate and the encoding, and the rotation speed.
use fdx.Prelude.{ℕ, suc, zero, Bool, true, false, some, ◌≡◌, ◌⊎◌, ◌↔◌, arith, List}
use fdx.Hfe.Imd.{ImdTrack, mode_to_rate_density, rate_density_to_mode, base_mode}
use fdx.Hfe.Imd.Read.{track_rpm, floppy_rpm_of, rounded_rpm}

mode_sound :
    (rate : ℕ) (mfm : Bool) (mode : ℕ)
    → rate_density_to_mode rate mfm ≡ some mode
    → mode_to_rate_density mode ≡ some (rate, mfm)
unfolding rate_density_to_mode mode_to_rate_density base_mode
mode_sound rate true mode h = ground arith
mode_sound rate false mode h = ground arith

mode_complete :
    (mode rate : ℕ) (mfm : Bool)
    → mode_to_rate_density mode ≡ some (rate, mfm)
    → rate_density_to_mode rate mfm ≡ some mode
unfolding rate_density_to_mode mode_to_rate_density base_mode
mode_complete zero rate mfm h = ground arith
mode_complete (suc zero) rate mfm h = ground arith
mode_complete (suc (suc zero)) rate mfm h = ground arith
mode_complete (suc (suc (suc zero))) rate mfm h = ground arith
mode_complete (suc (suc (suc (suc zero)))) rate mfm h = ground arith
mode_complete (suc (suc (suc (suc (suc zero))))) rate mfm h = ground arith
mode_complete (suc (suc (suc (suc (suc (suc mode)))))) rate mfm h = ground arith

-- rateDensityToMode gives a mode for a rate and an encoding where modeToRateDensity gives them for
-- the mode, and nowhere else.
pub rate_density_to_mode_iff :
    (mode rate : ℕ) (mfm : Bool)
    → (rate_density_to_mode rate mfm ≡ some mode) ↔ (mode_to_rate_density mode ≡ some (rate, mfm))
rate_density_to_mode_iff mode rate mfm = (mode_sound rate mfm mode, mode_complete mode rate mfm)

rounded_rpm-values : (rpm : ℕ) → (rounded_rpm rpm ≡ 300) ⊎ (rounded_rpm rpm ≡ 360)
unfolding rounded_rpm
rounded_rpm-values rpm = ground arith

pub floppy_rpm_of-values :
    (tracks : List ImdTrack) → (floppy_rpm_of tracks ≡ 300) ⊎ (floppy_rpm_of tracks ≡ 360)
unfolding floppy_rpm_of track_rpm
floppy_rpm_of-values tracks = grind (arith, rounded_rpm-values)
