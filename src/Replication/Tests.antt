-- ===== src/Replication/Tests.antt =====
-- internal/replication/replica_manager.go: the theorem at concrete inputs.
use lumeo_fs.Base.{String, true, false, Option, none, some, List, [], ◌∷◌, ◌≡◌, ◌↔◌, pos}
use lumeo_fs.Version.Data.{DataVersion, new_data_version}
use lumeo_fs.Replication.Manager.{VersionInfo, validate_consistency}
use lumeo_fs.Replication.Consistency.{Consistent, validate_consistency_lem}

abbrev info : String → Option DataVersion → VersionInfo
info node version = record { chunk_id = "c"; node_id = node; version = version; checksum = "sum" }

-- Two versions that differ, behind a replica that has none.
abbrev versions : List VersionInfo
versions =
    info "b" (some (new_data_version 4 "b"))
    ∷ info "c" (some (record (new_data_version 5 "c") { logical_version = pos 7 }))
    ∷ []

validate_consistency_lem_example :
    (validate_consistency [] ≡ false)
    × ((validate_consistency (info "a" none ∷ versions) ≡ true)
        ↔ Consistent (info "a" none) versions)
validate_consistency_lem_example = validate_consistency_lem (info "a" none) versions
