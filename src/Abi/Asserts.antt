-- ===== src/Abi/Asserts.antt =====
-- coakka_runtime_bridge.c, lines 114 to 116: the static assertions on the startup records, and the
-- sizes of some records that the bridge clears.
use coakka_runtime_swift.Prelude.{◌≡◌, refl, some}
use coakka_runtime_swift.Abi.Layout.{size, offset_of, place, members}
use coakka_runtime_swift.Abi.Startup.{
  runtime_startup_options, runtime_startup_config, runtime_delivery_config,
}
use coakka_runtime_swift.Abi.Runtime.{host_handles, swift_runtime_info}

startup_options_size : size runtime_startup_options ≡ 40
unfolding size runtime_startup_options
startup_options_size = refl

startup_config_size : size runtime_startup_config ≡ 176
unfolding size runtime_startup_config
startup_config_size = refl

delivery_config_size : size runtime_delivery_config ≡ 40
unfolding size runtime_delivery_config
delivery_config_size = refl

host_handles-size : size host_handles ≡ 40
unfolding size host_handles
host_handles-size = refl

swift_runtime_info_backend : offset_of "backend" (place 0 (members swift_runtime_info)) ≡ some 32
unfolding offset_of place swift_runtime_info
swift_runtime_info_backend = refl
