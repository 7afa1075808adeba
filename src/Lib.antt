-- ===== src/Lib.antt =====
-- libASPL: a C++ library for audio server plugins of macOS. A driver's author makes a tree of objects,
-- a plugin with devices, their streams and controls; the operating system's audio server, the HAL,
-- calls the driver through a table of functions, which find the object in a registry and ask it.
-- This development models the parts that keep state and proves what makes them correct.
--
-- Parts and files. Every file names its code in its first lines, and a definition is named after the
-- function that it models, in lower case: `Device::StartIO` is `start_io`.
--   Prelude         lists, ordered maps and bits over the native numbers.
--   Status          the status codes.
--   Dispatcher      src/Dispatcher.cpp. The registry (`register_object`, `unregister_object`,
--                   `find_object`) and, in Dispatcher/Ids, the allocator of identifiers in a bitset.
--                   Registry has the invariant, Directory the contract, a partial map, and
--                   Explicit what happens to identifiers that the caller chooses. Lookup has
--                   `FindObject` calls beside an `UnregisterObject` of the same object.
--   DoubleBuffer    include/aspl/DoubleBuffer.hpp. `Step` is one access to shared memory by the setter
--                   or by a getter, so that a reachable state is the outcome of any interleaving.
--   Object          src/Object.cpp. Owners and owned objects as a heap of addresses with a mutex
--                   each, where a call returns or waits for ever; Object/Properties has the custom
--                   properties that the HAL reads and writes.
--   Plugin          src/Plugin.cpp. The list and the maps of the plugin's devices.
--   Device          src/Device.cpp. Configuration: changes that wait for the HAL. Io: starting,
--                   stopping, and the calls of the IO handler. Clock: the timestamps. Clients: the
--                   objects of the control handler. Streams: the lists and counters of streams,
--                   the channels of those the device creates, and those it creates with controls.
--                   Controls: the volume and mute controls, where a call may wait for ever, as in
--                   Object. Attributes: sample rates, channels and the other attributes, with their
--                   setters; Attributes/Served puts them together with the calls of the HAL and the
--                   queue of changes.
--   Tracer          src/Tracer.cpp. The counters of nested operations.
--   Storage         src/Storage.cpp. The host's storage and the references that the library owes.
--   Stream          src/Stream.cpp, src/Compare.hpp. Formats, their comparison, conversions.
--                   Attributes: the setters. Processing: what the attached controls do to samples.
--   VolumeControl   src/VolumeControl.cpp, MuteControl  src/MuteControl.cpp.
--   Driver          src/Driver.cpp. The references of a client; Driver/Bridge has the entry points of
--                   src/Bridge.g.cpp.
--   Accessor        what the generated files src/*.g.cpp share: the shapes of a `case` and of a setter.
--                   The module Accessors of Object, Device, Stream, Plugin, VolumeControl and
--                   MuteControl has the five calls of the HAL on the properties of that class. A switch
--                   over selectors is a data type with the `case`s in the order of the code, in groups
--                   that follow one another, and one function by clauses for each call; what a switch
--                   does not list goes on to the base class. Below it, Described, Reading, Within and
--                   Guarded say how the calls agree.
-- A device asks its owner by `has_owner` whether changes wait, the registry stores its map in a double
-- buffer as the other parts do, and all parts report to the tracer; the models of the parts leave the
-- tracer's calls out and take a double buffer's `Get` and `Set` as reads and writes.
--
-- Bounds and fuel. Fixed-width numbers wrap as written in the code. The bitset of identifiers is taken
-- to have fewer than 2 ^ 26 chunks, which are all identifiers of 32 bits; `skip_reserved` has three
-- rounds, since two identifiers are reserved, and the searches of the bitset have a round for each bit
-- and chunk. The index of a double buffer is taken below 2 ^ 63 - 1 sets. `apply_pending` has a round
-- for each change that waits. Starts and stops are taken below 2 ^ 31, requests below 2 ^ 64.
--
-- Parameters. What the author of a driver supplies (handlers, getters, setters, `ShouldIgnore`), the
-- host, CoreFoundation's conversions and floating-point arithmetic are arguments of the definitions, as
-- is the order in which an std::unordered_map is iterated.
--
-- sizeof is that of a 64-bit system: 8 for a reference, 4 for UInt32 and Float32, 8 for Float64, 16, 40,
-- 56 and 12 for AudioValueRange, AudioStreamBasicDescription, AudioStreamRangedDescription and
-- AudioServerPlugInCustomPropertyInfo.
--
-- Not modelled: the curve of the volume control, which comes from an example of Apple and is a
-- parameter; the names of classes (GetClass, IsInstance), constants that the host asks for; the text of
-- messages and of identifiers; memory orders weaker than sequential consistency.
mod Prelude
pub mod Accessor
pub mod Dispatcher
pub mod DoubleBuffer
pub mod Status
pub mod Object
pub mod Plugin
pub mod Device
pub mod Tracer
pub mod Storage
pub mod Stream
pub mod Driver
pub mod VolumeControl
pub mod MuteControl
