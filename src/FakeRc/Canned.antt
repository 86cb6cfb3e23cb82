-- ===== src/FakeRc/Canned.antt =====
-- The texts that fake_rc/src/main.rs serves: lists of op modes and devices, a configuration, a scan and a
-- stack trace.
use robocol.Prelude.{◌++◌}
use robocol.Prelude.Text.{codes}
use robocol.Wire.{Bytes}

unfoldable pub opmodes : Bytes
opmodes =
    codes "[\n"
    ++ codes
        "    {\"name\":\"$Stop$Robot$\",\"flavor\":\"SYSTEM\",\"group\":\"$$$$$$$\",\"source\":\"BUILTIN\",\"description\":\"\",\"systemOpModeBaseDisplayName\":\"Stop Robot\"},\n"
    ++ codes
        "    {\"name\":\"$Configure$Robot$\",\"flavor\":\"SYSTEM\",\"group\":\"$$$$$$$\",\"source\":\"BUILTIN\",\"description\":\"\",\"systemOpModeBaseDisplayName\":\"Configure Robot\"},\n"
    ++ codes
        "    {\"name\":\"Test Hardware (Built-in)\",\"flavor\":\"UTILITY\",\"group\":\"$$$$$$$\",\"source\":\"BUILTIN\",\"description\":\"Exercise each configured motor and servo\",\"systemOpModeBaseDisplayName\":\"Test Hardware\"},\n"
    ++ codes
        "    {\"name\":\"Test Gamepad (Built-in)\",\"flavor\":\"UTILITY\",\"group\":\"$$$$$$$\",\"source\":\"BUILTIN\",\"description\":\"Show live gamepad input\",\"systemOpModeBaseDisplayName\":\"Test Gamepad\"},\n"
    ++ codes
        "    {\"name\":\"Duo (TeleOp)\",\"flavor\":\"TELEOP\",\"group\":\"drive\",\"source\":\"ANDROID_STUDIO\",\"description\":\"\"},\n"
    ++ codes
        "    {\"name\":\"Solo (TeleOp)\",\"flavor\":\"TELEOP\",\"group\":\"drive\",\"source\":\"ANDROID_STUDIO\",\"description\":\"\"},\n"
    ++ codes
        "    {\"name\":\"Auto: Sand Run\",\"flavor\":\"AUTONOMOUS\",\"group\":\"auto\",\"source\":\"ANDROID_STUDIO\",\"description\":\"\"},\n"
    ++ codes
        "    {\"name\":\"Crash Test\",\"flavor\":\"TELEOP\",\"group\":\"$$$$$$$\",\"source\":\"ANDROID_STUDIO\",\"description\":\"\"}\n"
    ++ codes "]"

unfoldable pub crash_stacktrace : Bytes
crash_stacktrace =
    codes
      "java.lang.NullPointerException: Attempt to invoke virtual method 'void com.qualcomm.robotcore.hardware.DcMotor.setPower(double)' on a null object reference\n"
    ++ codes "\tat org.firstinspires.ftc.teamcode.CrashTest.loop(CrashTest.java:42)\n"
    ++ codes
        "\tat com.qualcomm.robotcore.eventloop.opmode.OpModeManagerImpl.runActiveOpMode(OpModeManagerImpl.java:475)\n"
    ++ codes "\tat com.qualcomm.robotcore.eventloop.opmode.FtcEventLoop.loop(FtcEventLoop.java:180)"

unfoldable pub fake_config_xml : Bytes
fake_config_xml =
    codes "<?xml version='1.0' encoding='UTF-8' standalone='yes' ?>\n"
    ++ codes "<Robot type=\"FirstInspires-FTC\">\n"
    ++ codes
        "    <LynxUsbDevice name=\"Control Hub Portal\" serialNumber=\"(embedded)\" parentModuleAddress=\"173\">\n"
    ++ codes "        <LynxModule name=\"Control Hub\" port=\"173\">\n"
    ++ codes "            <goBILDA5202SeriesMotor name=\"front_right_motor\" port=\"0\" />\n"
    ++ codes "            <goBILDA5202SeriesMotor name=\"front_left_motor\" port=\"1\" />\n"
    ++ codes "            <goBILDA5202SeriesMotor name=\"back_right_motor\" port=\"2\" />\n"
    ++ codes "            <goBILDA5202SeriesMotor name=\"back_left_motor\" port=\"3\" />\n"
    ++ codes "            <Servo name=\"sortServo\" port=\"5\" />\n"
    ++ codes "            <ControlHubImuBHI260AP name=\"imu\" port=\"0\" bus=\"0\" />\n"
    ++ codes
        "            <REV_VL53L0X_RANGE_SENSOR name=\"intakeDistance\" port=\"0\" bus=\"2\" />\n"
    ++ codes "        </LynxModule>\n"
    ++ codes "        <LynxModule name=\"Expansion Hub 2\" port=\"2\">\n"
    ++ codes "            <goBILDA5202SeriesMotor name=\"intake\" port=\"0\" />\n"
    ++ codes "            <Servo name=\"kickoutServo\" port=\"2\" />\n"
    ++ codes "            <SparkFunOTOS name=\"otos\" port=\"0\" bus=\"0\" />\n"
    ++ codes "        </LynxModule>\n"
    ++ codes "    </LynxUsbDevice>\n"
    ++ codes "    <Webcam name=\"Webcam 1\" serialNumber=\"REPLACE_WITH_USB_SERIAL\" />\n"
    ++ codes "</Robot>"

unfoldable pub scan_report : Bytes
scan_report =
    codes
      "{\"map\":[{\"key\":\"(embedded)\",\"value\":\"LYNX_USB_DEVICE\"},{\"key\":\"3E425A6F\",\"value\":\"WEBCAM\"},{\"key\":\"EthernetOverUsb:eth0:172.29.0.24\",\"value\":\"ETHERNET_DEVICE\"}]}"

unfoldable pub user_device_types : Bytes
user_device_types =
    codes "[\n"
    ++ codes
        "    {\"name\":\"goBILDA 5202/3/4 series\",\"flavor\":\"MOTOR\",\"xmlTag\":\"goBILDA5202SeriesMotor\",\"builtIn\":true,\"isDeprecated\":false,\"classSource\":\"APK\"},\n"
    ++ codes
        "    {\"name\":\"REV Core Hex Motor\",\"flavor\":\"MOTOR\",\"xmlTag\":\"RevRoboticsCoreHexMotor\",\"builtIn\":true,\"isDeprecated\":false,\"classSource\":\"APK\"},\n"
    ++ codes
        "    {\"name\":\"REV HD Hex Motor 20:1\",\"flavor\":\"MOTOR\",\"xmlTag\":\"RevRobotics20HDHexMotor\",\"builtIn\":true,\"isDeprecated\":false,\"classSource\":\"APK\"},\n"
    ++ codes
        "    {\"name\":\"Servo\",\"flavor\":\"SERVO\",\"xmlTag\":\"Servo\",\"builtIn\":true,\"isDeprecated\":false,\"classSource\":\"APK\"},\n"
    ++ codes
        "    {\"name\":\"Continuous Rotation Servo\",\"flavor\":\"SERVO\",\"xmlTag\":\"ContinuousRotationServo\",\"builtIn\":true,\"isDeprecated\":false,\"classSource\":\"APK\"},\n"
    ++ codes
        "    {\"name\":\"Control Hub IMU (BHI260AP)\",\"flavor\":\"I2C\",\"xmlTag\":\"ControlHubImuBHI260AP\",\"builtIn\":true,\"isDeprecated\":false,\"classSource\":\"APK\"},\n"
    ++ codes
        "    {\"name\":\"REV 2M Distance Sensor\",\"flavor\":\"I2C\",\"xmlTag\":\"REV_VL53L0X_RANGE_SENSOR\",\"builtIn\":true,\"isDeprecated\":false,\"classSource\":\"APK\"},\n"
    ++ codes
        "    {\"name\":\"SparkFun OTOS\",\"flavor\":\"I2C\",\"xmlTag\":\"SparkFunOTOS\",\"builtIn\":false,\"isDeprecated\":false,\"classSource\":\"APK\"},\n"
    ++ codes
        "    {\"xmlTag\":\"LynxColorSensor\",\"name\":\"REV Color/Range Sensor\",\"flavor\":\"BUILT_IN\"},\n"
    ++ codes "    {\"xmlTag\":\"Webcam\",\"name\":\"Webcam\",\"flavor\":\"BUILT_IN\"}\n"
    ++ codes "]"
