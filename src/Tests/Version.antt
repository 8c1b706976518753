-- ===== src/Tests/Version.antt =====
-- The properties of versions at concrete ones.
use mgdf.Version.{create_version, format}
use mgdf.Version.RoundTrip.{three, version_of, create_version-format}
use mgdf.Prelude.{◌≡◌, some}

create_version-format_example :
    create_version (format (version_of (three 1 20 3))) ≡ some (version_of (three 1 20 3))
create_version-format_example = create_version-format (three 1 20 3)
