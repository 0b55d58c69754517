-- ===== src/Samples/Paths.antt =====
-- Absolute paths.
use agent_workstation_gatewa.Base.{◌≡◌, ◌↔◌, refl, true, [], ◌∷◌, ok, err}
use agent_workstation_gatewa.Text.{
  codes, bytes_eq, has_prefix, contains_byte, split, join, trim_prefix, utf8_valid,
}
use agent_workstation_gatewa.PlatformPath.{
  linux, windows, non_canonical_segment, reserved_windows_name, has_control_character,
  validate_segments, validate_linux, validate_windows, validate_absolute, contains, overlaps,
}
use agent_workstation_gatewa.PlatformPath.Linux.{
  IsPlain, IsLinuxPath, LinuxForm, root, segments, validate_absolute_iff,
}
use agent_workstation_gatewa.PlatformPath.Contains.{Leads, contains_iff, contains-overlaps}
use agent_workstation_gatewa.Samples.Streams.{ascii}

dot_dot_run : validate_absolute linux (codes "/home/../etc") ≡ err non_canonical_segment
unfolding validate_absolute validate_linux utf8_valid has_prefix contains_byte bytes_eq trim_prefix
    split validate_segments
dot_dot_run = refl

reserved_run : validate_absolute windows (codes "C:\\work\\NUL.txt") ≡ err reserved_windows_name
unfolding validate_absolute validate_windows utf8_valid contains_byte bytes_eq split
    validate_segments
reserved_run = refl

validate_absolute_iff_example :
    (validate_absolute linux (codes "/srv/work") ≡ ok tt) ↔ IsLinuxPath (codes "/srv/work")
validate_absolute_iff_example = validate_absolute_iff (codes "/srv/work")

form_of_work : LinuxForm (codes "/srv/work")
unfolding join contains_byte has_control_character
form_of_work =
    segments (codes "srv") (codes "work" ∷ []) refl (refl, (refl, tt)) (plain_srv, (plain_work, tt))
  where
    plain_srv : IsPlain (codes "srv")
    plain_srv = record {
      ne_nil = λ e. cc;
      ne_dot = λ e. cc;
      ne_dot_dot = λ e. cc;
      no_control = refl;
    }

    plain_work : IsPlain (codes "work")
    plain_work = record {
      ne_nil = λ e. cc;
      ne_dot = λ e. cc;
      ne_dot_dot = λ e. cc;
      no_control = refl;
    }

form_of_srv : LinuxForm (codes "/srv")
unfolding join contains_byte has_control_character
form_of_srv = segments (codes "srv") [] refl (refl, tt) (plain, tt)
  where
    plain : IsPlain (codes "srv")
    plain = record { ne_nil = λ e. cc; ne_dot = λ e. cc; ne_dot_dot = λ e. cc; no_control = refl }

contains_iff_example :
    (contains ascii linux (codes "/srv") (codes "/srv/work") ≡ true)
    ↔ Leads (codes "/srv") (codes "/srv/work")
contains_iff_example =
    contains_iff ascii (codes "/srv") (codes "/srv/work") form_of_srv form_of_work

contains-overlaps_example : overlaps ascii linux (codes "/") (codes "/srv") ≡ true
unfolding contains
contains-overlaps_example =
    contains-overlaps ascii (codes "/") (codes "/srv") (codes "/srv/work") (root refl) form_of_srv
      form_of_work refl refl
