-- ===== src/Controllers/Names.antt =====
-- The names of the interfaces that the controllers ask for: their ComposeInterfaceName and their
-- interface configurations.
use kuka_drivers.Prelude.{List, String, [], if◌then◌else◌, str_eq, ◌++◌, ◌∷◌}
use Prim.Native.String.{◌++◌ as append}

unfoldable pub compose_interface_name : String → String → String → String
compose_interface_name robot_prefix group name =
    if str_eq robot_prefix ""
    then append (append group "/") name
    else append (append (append (append robot_prefix "_") group) "/") name

-- The names of the interfaces of each robot, robot by robot.
abbrev pub each_robot : (String → List String) → List String → List String
each_robot names [] = []
each_robot names (prefix ∷ prefixes) = names prefix ++ each_robot names prefixes
