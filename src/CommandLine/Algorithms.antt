-- ===== src/CommandLine/Algorithms.antt =====
-- getAlgorithm of ramble.cpp: the algorithm of a name.
use ram_ble.Base.{◌≡◌, if◌then◌else◌, String, str_eq, str_append, str_eq_iff, arith}
use ram_ble.CommandLine.Runs.{Failure, runtime_error, Result, ok, err}

pub data Algorithm : Type 0 where
  gs iamb inter_iamb mmpc hiton si_hiton_pc getpc pc_stable pc_stable_2 : Algorithm

-- What std::runtime_error is thrown with, for the list ss of the names that were tried.
abbrev pub not_found : String → Failure
not_found ss =
    runtime_error
      (str_append "Requested algorithm not found. Supported algorithms are: {" (str_append ss "}"))

unfoldable pub get_algorithm : String → Result Algorithm
get_algorithm name =
    let ss : String = "" in
    if str_eq name "gs"
    then ok gs
    else let ss = str_append ss "gs" in
      if str_eq name "iamb"
      then ok iamb
      else let ss = str_append ss ",iamb" in
        if str_eq name "inter.iamb"
        then ok inter_iamb
        else let ss = str_append ss ",inter.iamb" in
          if str_eq name "mmpc"
          then ok mmpc
          else let ss = str_append ss ",mmpc" in
            if str_eq name "hiton"
            then ok hiton
            else let ss = str_append ss ",hiton" in
              if str_eq name "si.hiton.pc"
              then ok si_hiton_pc
              else let ss = str_append ss ",si.hiton.pc" in
                if str_eq name "getpc"
                then ok getpc
                else let ss = str_append ss ",getpc" in
                  if str_eq name "pc.stable"
                  then ok pc_stable
                  else let ss = str_append ss ",pc.stable" in
                    if str_eq name "pc.stable.2"
                    then ok pc_stable_2
                    else let ss = str_append ss ",pc.stable.2" in err (not_found ss)

-- The documented name of each algorithm.
abbrev pub name_of : Algorithm → String
name_of gs = "gs"
name_of iamb = "iamb"
name_of inter_iamb = "inter.iamb"
name_of mmpc = "mmpc"
name_of hiton = "hiton"
name_of si_hiton_pc = "si.hiton.pc"
name_of getpc = "getpc"
name_of pc_stable = "pc.stable"
name_of pc_stable_2 = "pc.stable.2"

-- The error that lists every name.
abbrev pub unsupported : Failure
unsupported =
    runtime_error
      "Requested algorithm not found. Supported algorithms are: {gs,iamb,inter.iamb,mmpc,hiton,si.hiton.pc,getpc,pc.stable,pc.stable.2}"

pub get_algorithm-found :
    (name : String) (a : Algorithm) → get_algorithm name ≡ ok a → name ≡ name_of a
unfolding get_algorithm
get_algorithm-found name a h = ground (
  arith,
  str_eq_iff name "gs",
  str_eq_iff name "iamb",
  str_eq_iff name "inter.iamb",
  str_eq_iff name "mmpc",
  str_eq_iff name "hiton",
  str_eq_iff name "si.hiton.pc",
  str_eq_iff name "getpc",
  str_eq_iff name "pc.stable",
  str_eq_iff name "pc.stable.2",
)
