-- ===== src/Lib.antt =====
-- kuka_drivers: a model of the ROS 2 drivers for KUKA robots, and what is proved of it.
--
-- The program. Each driver is a lifecycle node, the robot manager, beside the controller manager of
-- ROS 2. The robot manager's callbacks bring the hardware interfaces of all robots and the
-- controllers up and down through services of the controller manager; its parameters go through a
-- common handler with access rights for each lifecycle state. The hardware interfaces talk to the
-- robot controllers, over RSI with cyclic messages or over FRI with a TCP connection for commands.
-- They report events as state interfaces. The event broadcaster publishes them, and counts
-- interpolation cycles for the hardware interfaces while every robot is under control. A robot
-- manager deactivates the driver when an error event comes in.
--
-- Core, of the package kuka_drivers_core:
--   Core/Modes: kuka_drivers_core/include/kuka_drivers_core/control_mode.hpp and
--     hardware_event.hpp. An enum over uint8_t is a number, as the code makes it by casts from any
--     integer.
--   Core/Controllers: kuka_drivers_core/src/controller_handler.cpp; UpdateControllerName is
--     update_controller_name.
--   Core/Validator: kuka_drivers_core/src/joint_interface_validator.cpp; ValidateInterfaces is
--     validate_interfaces. Core/Validator/Joints has the loop over the joints in on_init of every
--     hardware interface.
--   Core/Parameters: kuka_drivers_core/src/parameter_handler.cpp with its header; onParamChange is
--     on_param_change. Core/Parameters/Values has registerParameter and registerStaticParameter of
--     kuka_drivers_core/include/kuka_drivers_core/ros2_base_lc_node.hpp, and a constructor made of
--     them.
--   Core/Interfaces: the names of interfaces in
--     kuka_drivers_core/include/kuka_drivers_core/hardware_interface_types.hpp.
--   Core/LifecycleNode: on_shutdown of kuka_drivers_core/src/ros2_base_lc_node.cpp.
--   Core/LifecycleManager: kuka_drivers_core/src/lifecycle_manager.cpp. The fuel of a wait is one
--     more than the pauses of 50 ms that fill the delay, and one.
--   Core/Clock, Core/Waiting:
--     kuka_drivers_core/include/kuka_drivers_core/hardware_interface_utils.hpp. Fuel 6 bounds
--     WaitForInterpolationCount: each of its rounds but the last sleeps for 200 microseconds or up
--     to the deadline, which is 1000 microseconds away.
--   Core/Counting: the check of the interpolation count at the start of write in the hardware
--     interfaces for FRI and for iiQKA, which have the same code.
--   Core/Services: ros2_control_tools.hpp and service_tools.hpp of
--     kuka_drivers_core/include/communication_helpers, with the loops over the robots that the
--     robot managers share. The controller manager is a function that answers a request from all
--     that was exchanged before it. What a robot's hardware was brought to is told from the
--     requests that were accepted.
-- Rsi/Manager: robot_manager_base.cpp, robot_manager_node_rsi_only.cpp and
--   robot_manager_node_extended.cpp of kuka_rsi_driver/src. on_activate takes the hardware events
--   that arrive during its pause as an argument, here and in the other two managers; on_activate_amid
--   in Amid also those that are handled behind the requests for the robots. Rsi/Manager/Settings has
--   the callbacks of the parameters, Rsi/Manager/Parameters their registration in the constructor;
--   the proofs are in Stages, Activation and Requests beside it.
-- Rsi/Hardware: write of kuka_rsi_driver/src/hardware_interface_rsi_base.cpp with its check of the
--   interpolation count; sending the commands is a parameter, which Rsi/Base fills.
-- Rsi/Base: the rest of that file, and hardware_interface_rsi_only.cpp beside it. Read and Write are
--   receive and send_commands. Setup has on_init and ParseGPIOConfig, Gpio the map from GPIO
--   commands to states, Activation the activations and deactivations. Reading and Connecting have
--   what hardware_interface_eki_rsi.cpp, hardware_interface_mxa_rsi.cpp and event_observers.hpp add
--   to it; where the two interfaces differ, a value of InstalledInterface tells which it is.
-- Rsi/Exports: export_state_interfaces and export_command_interfaces of these files. An interface is
--   its full name with the value that its member holds.
-- Rsi/Status: kuka_rsi_driver/include/kuka_rsi_driver/robot_status_manager.hpp, with the loops that
--   wait for the drives. Fuel 32 is enough: each round sleeps for 100 ms, and the one after 3 s is
--   the last.
-- Rsi/Xml: kuka_rsi_driver/src/rsi_xml_configuration_parser.cpp, which Rsi/Base calls in on_init:
--   Motion, Control and Load have its methods by the section of the file that they read. A method
--   returns, refuses with false, or throws.
-- Controllers/Events: controllers/kuka_event_broadcaster/src/kuka_event_broadcaster.cpp. What one
--   cycle reads, and which writes succeed, is an argument of update.
-- Controllers/Kss, Mode, FriConfig, FriState, Impedance: the file in src of the packages
--   kuka_kss_message_handler, kuka_control_mode_handler, fri_configuration_controller,
--   fri_state_broadcaster and joint_group_impedance_controller in the directory controllers, with
--   its header. Controllers/Names has the names that they make for interfaces. Controllers/Lending
--   says what ros2_control does with them: it lends a controller, in the order of the names that it
--   asks for, the interfaces that the hardware exports under them.
-- Fri, of the package kuka_sunrise_fri_driver:
--   Fri/Bytes: kuka_sunrise_fri_driver/include/kuka_sunrise_fri_driver/serialization.hpp, on a
--     little-endian machine.
--   Fri/Connection: kuka_sunrise_fri_driver/src/connection_helpers/fri_connection.cpp.
--     sendCommandAndWait takes the packets that come while it waits as an argument, and an outcome
--     tells whether it returned, waits for ever or read out of bounds. Fri/Connection/Commands has
--     the commands.
--   Fri/Manager: kuka_sunrise_fri_driver/src/robot_manager_node.cpp. An int is an integer, with
--     the wrap-around of the product that the code tests written out in int32. Fri/Address has the
--     check of the robot controller's address from the same file, with the exceptions of
--     std::stoi. Fri/Manager/Parameters has the registration of the parameters.
--   Fri/Client: kuka_sunrise_fri_driver/src/fri_client_sdk/HWIFClientApplication.cpp, which is the
--     driver's own, and of kuka_sunrise_fri_driver/src/hardware_interface.cpp the read, the write
--     and the callbacks that the application makes: waitForCommand is wait_for_command, command is
--     command, updateCommand is update_command.
--   Fri/Hardware: the lifecycle callbacks of that file, over Fri/Connection, with on_init in Setup.
--     Fri/Exports has the interfaces that it exports.
--     The thread that an activation starts and the loop of the main thread meanwhile touch
--     different members: the loop is an argument that the thread's part applies.
-- Eac, of the package kuka_iiqka_eac_driver:
--   Eac/Manager: kuka_iiqka_eac_driver/src/robot_manager_node.cpp, with the callbacks of the
--     parameters in Settings and their registration in Parameters. Fleet has what the manager promises of the robots, as operations on
--     the state that each was brought to, and the runs of its callbacks.
--   Eac/Hardware: hardware_interface.cpp of kuka_iiqka_eac_driver/src with
--     kuka_iiqka_eac_driver/include/kuka_iiqka_eac_driver/event_observer.hpp. Eac/Exports has the
--     interfaces that it exports.
--   Eac/Loop: the loop of kuka_drivers_core/src/control_node.cpp with these hardware interfaces and
--     the event broadcaster. The controller manager calls read of every interface, update of every
--     controller, write of every interface; what other controllers write is a parameter. The
--     interfaces are synchronous: the threads of asynchronous ones are not modelled. What
--     ros2_control does about a read or a write that does not succeed is not modelled. Eac/Loop/Lent
--     has the interfaces through which the broadcaster reads the events.
--
-- Parameters. The libraries that talk to the robots are no code of the repository: Eac/Hardware and
-- Rsi/Base take a Robot, Fri/Client an Sdk, each with what the code calls of the library, over a
-- world W that a call changes. The type of doubles is a parameter with the operations that the code
-- uses on it (Reals); a command that is a double made of an integer is that integer. So are
-- yaml-cpp (Yaml), the steady clock (Clock), std::stoi, std::stod,
-- std::regex_search and inet_addr.
--
-- Prelude has the shared names, and Tests has runs at concrete inputs.
--
-- Not modelled: the clients, publishers and fixed controller names that the constructors of the
--   robot managers set up; the configuration that the RSI interfaces hand to the robot library; the
--   listeners through which the controllers read their parameters, which are generated code; the
--   copy of KUKA's FRI client library, sockets, the threads of asynchronous
--   hardware interfaces, thread priorities, logging, launch files, scripts,
--   simulators and the application on the robot controller, which are other programs or input and
--   output. Threads are modelled where a theorem needs them: as events, as packets, and as a world
--   that changes during a sleep.
pub mod Prelude
pub mod Core
pub mod Rsi
pub mod Controllers
pub mod Fri
pub mod Eac
pub mod Tests
