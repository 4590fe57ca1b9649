-- ===== src/Examples/Merges.antt =====
-- Environment variables and ports that are merged.
use milvus_operator.Base.{String, List, [], ◌∷◌, ◌++◌, map, ◌≡◌, refl}
use milvus_operator.Merge.{EnvVar, ContainerPort, env_key, port_key, merge_lists, merge_env_var}
use milvus_operator.Merge.Last.{or_else, last_with}
use milvus_operator.Merge.Places.{fresh_keys, merge_lists-last, merge_lists-keys}

abbrev variable : String → String → EnvVar
variable n v = record { name = n; value = v }

abbrev given : List EnvVar
given = variable "A" "1" ∷ variable "B" "2" ∷ variable "A" "3" ∷ []

abbrev wanted : List EnvVar
wanted = variable "A" "4" ∷ variable "C" "5" ∷ []

-- The last of two entries of a key is replaced.
merged_variables :
    merge_env_var given wanted
    ≡ variable "A" "1" ∷ variable "B" "2" ∷ variable "A" "4" ∷ variable "C" "5" ∷ []
unfolding merge_env_var
merged_variables = refl

merge_lists-last_example :
    last_with env_key "A" (merge_lists env_key given wanted)
    ≡ or_else (last_with env_key "A" wanted) (last_with env_key "A" given)
merge_lists-last_example = merge_lists-last env_key given wanted "A"

abbrev ports : List ContainerPort
ports = record { name = "metrics"; port = "9091" } ∷ record { name = ""; port = "9092" } ∷ []

merge_lists-keys_example :
    map port_key (merge_lists port_key ports ports)
    ≡ map port_key ports ++ fresh_keys (map port_key ports) (map port_key ports)
merge_lists-keys_example = merge_lists-keys port_key ports ports
